-- ===== src/Prompt/Rules.antt =====
-- The tables of lint.go: the rules on a line and the sections that a prompt needs. A pattern is its
-- regular expression, in the syntax of Go's package regexp.
use codex_prompt_better.Base.{String, List, [], ◌∷◌}

pub record Rule : Type 0 where
  pub code : String
  pub severity : String
  pub message : String
  pub rationale : String
  pub remediation : String
  pub pattern : String

abbrev new_rule : String → String → String → String → String → String → Rule
new_rule code severity message rationale remediation pattern = record {
  code = code;
  severity = severity;
  message = message;
  rationale = rationale;
  remediation = remediation;
  pattern = pattern;
}

abbrev pub line_rules : List Rule
line_rules =
    new_rule "unbounded-persistence" "error" "Unbounded persistence or delegation request."
      "Work without measurable completion or limits can overrun scope and budget."
      "Add measurable completion, retry or fanout limits, and an observable stop rule."
      "(?i)\\b(keep going|until happy|babysit|do everything|never stop|recursive delegation)\\b"
    ∷ new_rule "chain-of-thought" "error" "Private reasoning or chain-of-thought requested."
        "The task should request conclusions and evidence, not hidden reasoning."
        "Ask for a concise rationale, evidence, or verification summary."
        "(?i)\\b(chain[- ]of[- ]thought|show (all|your) reasoning|hidden reasoning)\\b"
    ∷ new_rule "broad-absolute" "warning" "Broad ALWAYS/NEVER instruction."
        "Absolute wording is brittle unless it protects a true invariant."
        "Replace with a scoped decision rule or state why this is an invariant."
        "\\b(ALWAYS|NEVER)\\b"
    ∷ new_rule "unsupported-host-setting" "warning" "Host setting claim may be unsupported."
        "Prompt Better must not invent or change model, effort, verbosity, fast, Ultra, or hidden settings."
        "Capability-tag the advice and require current evidence, or remove it."
        "(?i)\\b(set|switch|force|guarantee).*(model|reasoning effort|verbosity|fast mode|ultra mode|hidden flag)\\b"
    ∷ new_rule "accounting-conflation" "warning" "API and subscription accounting may be conflated."
        "API token or cache fields do not establish Codex subscription usage or cost."
        "Name the product surface and accounting regime; mark unknowns explicitly."
        "(?i)\\b(api|cache).*(subscription|usage unit|price|cost)\\b|\\bsubscription.*(token|cache|api)\\b"
    ∷ new_rule "blanket-brevity" "warning" "Blanket brevity may drop required content."
        "Facts, decisions, caveats, evidence, and next actions take priority over generic brevity."
        "State a concrete length or format while preserving required content."
        "(?i)\\b(be (extremely )?(brief|concise)|sacrifice .* for brevity)\\b"
    ∷ new_rule "vague-role" "warning" "Role is too vague to change behavior reliably."
        "Generic expert or helpful roles add tokens without defining responsibility."
        "Name the concrete responsibility or remove the role."
        "(?i)\\byou are (a |an )?(helpful|expert|world[- ]class) (assistant|ai|agent)\\b"
    ∷ new_rule "keyword-semantic-map" "warning" "Keyword-only semantic routing may be brittle."
        "Keywords do not reliably establish user intent, authorization, or phase."
        "Use an explicit decision rule with context and fallback behavior."
        "(?i)\\bif (the )?(prompt|request) (contains|has) (the )?(word|keyword)\\b"
    ∷ new_rule "blanket-language-switch" "warning"
        "Blanket language switching may drop user intent."
        "Output language should change only under an explicit request or product rule."
        "Preserve the requested language or state the scoped language rule."
        "(?i)\\b(always |regardless.*,? )?(respond|answer|output) in english\\b"
    ∷ new_rule "fixed-context-threshold" "warning"
        "Fixed cache, context, or compaction threshold may be unsupported."
        "Host thresholds and accounting behavior are capability- and version-dependent."
        "Treat the number as source-qualified evidence or remove the universal claim."
        "(?i)\\b[0-9]+k? (tokens?|context|compaction|cache).*(always|threshold|limit)\\b"
    ∷ []

abbrev pub dynamic_date_pattern : String
dynamic_date_pattern = "\\b20[0-9]{2}[-/]"

pub record RequiredSection : Type 0 where
  pub name : String
  pub code : String
  pub message : String
  pub rationale : String
  pub remediation : String

abbrev new_section : String → String → String → String → String → RequiredSection
new_section name code message rationale remediation = record {
  name = name;
  code = code;
  message = message;
  rationale = rationale;
  remediation = remediation;
}

abbrev pub required_sections : List RequiredSection
required_sections =
    new_section "goal" "missing-goal" "Missing explicit outcome."
      "Without an outcome, transformations cannot be checked for success."
      "Add a Goal section or a direct outcome-first instruction."
    ∷ new_section "success criteria" "missing-success" "Missing success criteria."
        "Completion is ambiguous without observable success criteria."
        "Add measurable success criteria."
    ∷ new_section "evidence" "missing-evidence" "Missing evidence requirement."
        "Claims and completion cannot be verified without required evidence."
        "State the evidence needed or explicitly say none is required."
    ∷ new_section "validation" "missing-validation" "Missing validation requirement."
        "A result can look complete without evidence that it works."
        "State the checks or evidence required before completion."
    ∷ new_section "stop" "missing-stop" "Missing stop rule."
        "Open-ended work can drift into later phases or excessive retries."
        "Add an observable completion and blocked/budget stop rule."
    ∷ new_section "approval boundary" "missing-authorization" "Missing authorization boundary."
        "The prompt may silently advance from planning to implementation or external action."
        "State what requires user or host approval."
    ∷ []
