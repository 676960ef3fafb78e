-- ===== src/Contracts.antt =====
-- pkg/contracts/contracts.go and pkg/contracts' errors: the string enumerations that several
-- packages share, and the error value. A Go string type may hold any text, so an enumeration has
-- one constructor more, for a text that is none of its constants.
use codex_prompt_better.Base.{String, Bool, true, false}

pub data ExecutionPolicy : Type 0 where
  improve_only ask_before_execute follow_user_intent : ExecutionPolicy
  other_policy : String → ExecutionPolicy

pub data PolicyOutcome : Type 0 where
  return_only approval_required execution_recommended denied : PolicyOutcome

pub data CoverageState : Type 0 where
  complete partial missing unknown : CoverageState
  other_coverage : String → CoverageState

pub data MetricStatus : Type 0 where
  improved worsened flat mixed insufficient : MetricStatus

pub data ErrorCode : Type 0 where
  invalid_schema internal permission_denied approval_required semantic_invalid budget_exhausted :
      ErrorCode

-- `contracts.NewError(code, message, field, retryable)`.
pub record Error : Type 0 where
  pub code : ErrorCode
  pub message : String
  pub field : String
  pub retryable : Bool

abbrev pub new_error : ErrorCode → String → String → Bool → Error
new_error code message field retryable = record {
  code = code;
  message = message;
  field = field;
  retryable = retryable;
}

abbrev pub is_complete : CoverageState → Bool
is_complete complete = true
is_complete _ = false
