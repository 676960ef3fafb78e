-- ===== src/Prompt/Lint.antt =====
-- `CheckPrompt`. `matches` is the match of a regular expression in a text and `equal_fold` is
-- strings.EqualFold.
use Prim.Native.Char.{Char}
use Prim.Native.String.{len, ◌++◌ as append}
use codex_prompt_better.Base.{
  ℕ, suc, String, Bool, true, false, not, ◌&&◌, ◌||◌, ◌==◌, if◌then◌else◌, str_eq, ltb, leb, List,
  [], ◌∷◌, ◌++◌, map, keep, some_of, length, Option, none, some, Result, ok, err, ◌>>=◌,
}
use codex_prompt_better.Base.Decimal.{format_uint}
use codex_prompt_better.Base.Patterns.{
  Unicode, has_prefix, has_suffix, str_contains, to_lower, trim_left, trim_right, trim_space,
  trim_prefix,
}
use codex_prompt_better.Contracts.{Error, new_error, invalid_schema}
use codex_prompt_better.Prompt.Lines.{normalize, split_lines, is_char}
use codex_prompt_better.Prompt.Rules.{
  Rule, line_rules, dynamic_date_pattern, RequiredSection, required_sections,
}

pub record Diagnostic : Type 0 where
  pub code : String
  pub severity : String
  pub message : String
  pub location : String
  pub rationale : String
  pub remediation : String

pub record LintRequest : Type 0 where
  pub schema_version : String
  pub kind : String
  pub candidate : String

pub record LintResult : Type 0 where
  pub valid : Bool
  pub diagnostics : List Diagnostic

abbrev pub is_error : Diagnostic → Bool
is_error d = str_eq d.severity "error"

-- A pass of `capDiagnostics` over the errors or over the others, to the end or to its return.
unfoldable pub fill : (Diagnostic → Bool) → ℕ → List Diagnostic → List Diagnostic → List Diagnostic
fill p limit result [] = result
fill p limit result (d ∷ ds) = elim (p d) [
  | true ↦ elim (length (result ++ d ∷ []) == limit) [
    | true ↦ result ++ d ∷ []
    | false ↦ fill p limit (result ++ d ∷ []) ds
  ]
  | false ↦ fill p limit result ds
]

unfoldable pub cap_diagnostics : List Diagnostic → ℕ → List Diagnostic
unfolding fill
cap_diagnostics diagnostics limit =
    let errors = fill is_error limit [] diagnostics in
    let both = fill (λ d. not (is_error d)) limit errors diagnostics in
    if leb (length diagnostics) limit
    then diagnostics
    else if length errors == limit
    then errors
    else both

-- A map from texts, as the list of its entries.
abbrev pub find_entry {ℓ} : {V : Type ℓ} → String → List (String × V) → Option V
find_entry key [] = none
find_entry key ((k, v) ∷ entries) = if str_eq k key then some v else find_entry key entries

-- The sign of a directive, and its line.
pub record DirectiveState : Type 0 where
  pub is_negative : Bool
  pub line : ℕ

abbrev is_bullet : Char → Bool
is_bullet c = is_char c "-" || is_char c "*" || is_char c " "

abbrev pub location_of : ℕ → String
unfolding format_uint
location_of n = append "line " (format_uint n)

abbrev pub missing_section : RequiredSection → Diagnostic
missing_section s = record {
  code = s.code;
  severity = "warning";
  message = s.message;
  location = "document";
  rationale = s.rationale;
  remediation = s.remediation;
}

abbrev pub broken_rule : ℕ → Rule → Diagnostic
unfolding location_of
broken_rule n r = record {
  code = r.code;
  severity = r.severity;
  message = r.message;
  location = location_of n;
  rationale = r.rationale;
  remediation = r.remediation;
}

unfoldable pub duplicate_instruction : ℕ → ℕ → Diagnostic
unfolding format_uint location_of
duplicate_instruction n prior = record {
  code = "duplicate-instruction";
  severity = "warning";
  message = append "Instruction duplicates line " (append (format_uint prior) ".");
  location = location_of n;
  rationale = "Repeated instructions add noise and can destabilize reusable prefixes.";
  remediation = "Keep one authoritative copy.";
}

unfoldable pub contradictory_instructions : ℕ → ℕ → Diagnostic
unfolding format_uint location_of
contradictory_instructions n prior = record {
  code = "contradictory-instructions";
  severity = "error";
  message = append "Instruction contradicts line " (append (format_uint prior) ".");
  location = location_of n;
  rationale = "Opposing directives make the required behavior undefined.";
  remediation = "Keep one scoped authoritative directive or add an explicit precedence rule.";
}

abbrev pub dynamic_content : ℕ → Diagnostic
unfolding location_of
dynamic_content n = record {
  code = "unstable-prefix-dynamic-content";
  severity = "warning";
  message = "Dated dynamic content appears in the stable prefix.";
  location = location_of n;
  rationale = "Volatile content churns a reusable prefix without changing its durable contract.";
  remediation =
      "Move dated task evidence to dynamic context unless ordering authority requires otherwise.";
}

module _ (unicode : Unicode) (matches : String → String → Bool)
    (equal_fold : String → String → Bool) where
  abbrev lower : String → String
  unfolding to_lower
  lower s = to_lower unicode.lower s

  abbrev trim : String → String
  unfolding trim_left trim_right
  trim s = trim_space unicode s

  abbrev dated : String → Bool
  dated s = matches dynamic_date_pattern s

  unfoldable pub has_section : List String → String → Bool
  unfolding lower trim
  has_section lines name =
      some_of
        (λ l.
          let value = lower (trim l) in
          str_eq value (append (lower name) ":")
          || str_eq name "goal" && str_eq value "take this as a new goal:")
        lines

  -- The key of a directive and whether it is negative.
  unfoldable pub directive : String → Option (String × Bool)
  unfolding lower trim trim_left trim_prefix
  directive line =
      let value = lower (trim (trim_left is_bullet line)) in
      if has_prefix value "do not "
      then some (trim (trim_prefix value "do not "), true)
      else if has_prefix value "never "
      then some (trim (trim_prefix value "never "), true)
      else if has_prefix value "do "
      then some (trim (trim_prefix value "do "), false)
      else if has_prefix value "always "
      then some (trim (trim_prefix value "always "), false)
      else none

  unfoldable pub is_section_boundary : String → Bool
  unfolding has_suffix
  is_section_boundary value =
      if str_eq value "" || not (has_suffix value ":") then false else not (dated value)

  abbrev pub Seen : Type 0
  Seen = List (String × ℕ)

  abbrev pub Directives : Type 0
  Directives = List (String × DirectiveState)

  -- The first test of the loop on line `n`: what it adds, and the map behind it.
  unfoldable pub check_duplicate : ℕ → String → Seen → List Diagnostic × Seen
  unfolding lower duplicate_instruction
  check_duplicate n trimmed seen =
      if str_eq trimmed "" then ([], seen) else elim (find_entry (lower trimmed) seen) [
        | none ↦ ([], (lower trimmed, n) ∷ seen)
        | some prior ↦ (duplicate_instruction n prior ∷ [], seen)
      ]

  abbrev pub differs : Bool → Bool → Bool
  differs true b = not b
  differs false b = b

  -- The last test of the loop.
  unfoldable pub check_directive :
      ℕ → Option (String × Bool) → Directives → List Diagnostic × Directives
  unfolding contradictory_instructions
  check_directive n none directives = ([], directives)
  check_directive n (some (key, negative)) directives = elim (find_entry key directives) [
    | none ↦ ([], (key, record { is_negative = negative; line = n }) ∷ directives)
    | some prior ↦ (
      if differs prior.is_negative negative
          then contradictory_instructions n prior.line ∷ []
          else [],
      directives,
    )
  ]

  unfoldable pub check_lines : ℕ → Seen → Directives → List String → List Diagnostic
  unfolding check_duplicate check_directive directive trim broken_rule
  check_lines n seen directives [] = []
  check_lines n seen directives (line ∷ lines) =
      let first = check_duplicate n (trim line) seen in
      let last = check_directive n (directive line) directives in
      first.0
      ++ map (broken_rule n) (keep (λ r. matches r.pattern line) line_rules)
      ++ last.0
      ++ check_lines (suc n) first.1 last.1 lines

  -- The loop over the stable prefix.
  unfoldable pub check_prefix : ℕ → Bool → List String → List Diagnostic
  unfolding is_section_boundary trim dynamic_content
  check_prefix n in_prefix [] = []
  check_prefix n in_prefix (line ∷ lines) =
      if equal_fold (trim line) "Stable prefix:"
      then check_prefix (suc n) true lines
      else let still = in_prefix && not (is_section_boundary (trim line)) in
        (if still && dated line then dynamic_content n ∷ [] else [])
        ++ check_prefix (suc n) still lines

  -- All that the checks add, in order.
  unfoldable pub diagnose : String → List Diagnostic
  unfolding split_lines has_section check_lines check_prefix str_contains lower
  diagnose candidate =
      let lines = split_lines candidate in
      map missing_section (keep (λ s. not (has_section lines s.name)) required_sections)
      ++ check_lines 1 [] [] lines
      ++ (if str_contains (lower candidate) "stable prefix:"
          then check_prefix 1 false lines
          else [])

  unfoldable pub check_prompt : (String → Bool) → LintRequest → Result Error LintResult
  unfolding diagnose cap_diagnostics normalize
  check_prompt is_valid request =
      if not (str_eq request.schema_version "1.0.0") || not (str_eq request.kind "request")
      then err (
          new_error invalid_schema "request must use schema 1.0.0 and kind request" "request" false)
      else if ltb 16000 (len request.candidate)
      then err (new_error invalid_schema "candidate exceeds 16000 bytes" "candidate" false)
      else normalize unicode is_valid request.candidate >>= λ candidate. ok (record {
        valid = not (some_of is_error (diagnose candidate));
        diagnostics = cap_diagnostics (diagnose candidate) 100;
      })
