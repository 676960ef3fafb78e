-- ===== src/Audit/Request.antt =====
-- `ValidateRequest`: what an audit may be asked. An instant is a number, 0 the zero time.
use Prim.Native.String.{len, ◌∷◌ as ◌◂◌, [] as empty}
use Prim.Native.Char.{Char, code}
use mathlib.Core.Path.{subst}
use codex_prompt_better.Base.{
  ℕ, zero, suc, ◌+◌, ◌≤◌, ◌<◌, ◌≡◌, refl, String, Bool, true, false, not, ◌&&◌, ◌||◌, ◌==◌,
  if◌then◌else◌, if-eq-ok, Bool-cases, str_eq, eq_iff, ltb, leb, List, [], ◌∷◌, length, some_of,
  Result, ok, err, ◌>>◌, require, >>=-eq-ok, arith, tally, some_of-tally, inl, inr,
}
use codex_prompt_better.Contracts.{
  Error, new_error, invalid_schema, permission_denied, approval_required,
}

pub record AuditRequest : Type 0 where
  pub schema_version : String
  pub kind : String
  pub scope : String
  pub reference : String
  pub configured_sources : List String
  pub starts_at : ℕ
  pub ends_at : ℕ
  pub as_of : ℕ
  pub consent : String

-- `uuidReference`: `true` for a hexadecimal digit, `false` for a dash.
abbrev pub digits : ℕ → List Bool → List Bool
digits zero shape = shape
digits (suc n) shape = true ∷ digits n shape

abbrev pub uuid_shape : List Bool
uuid_shape =
    digits 8 (false ∷ digits 4 (false ∷ digits 4 (false ∷ digits 4 (false ∷ digits 12 []))))

abbrev pub is_hex : Char → Bool
is_hex c =
    leb 48 (code c) && leb (code c) 57
    || leb 97 (code c) && leb (code c) 102
    || leb 65 (code c) && leb (code c) 70

unfoldable pub has_shape : List Bool → String → Bool
has_shape [] empty = true
has_shape [] (c ◂ text) = false
has_shape (hex ∷ shape) empty = false
has_shape (hex ∷ shape) (c ◂ text) =
    (if hex then is_hex c else code c == 45) && has_shape shape text

abbrev invalid : String → String → Error
invalid message field = new_error invalid_schema message field false

unfoldable pub valid_scope : String → Bool
valid_scope scope =
    str_eq scope "portfolio"
    || str_eq scope "project"
    || str_eq scope "task"
    || str_eq scope "trajectory"

-- The loop over the sources, with those seen.
unfoldable pub valid_sources : List String → List String → Bool
valid_sources seen [] = true
valid_sources seen (source ∷ sources) =
    not (str_eq source "" || ltb 80 (len source) || some_of (λ s. str_eq s source) seen)
    && valid_sources (source ∷ seen) sources

unfoldable pub valid_form : AuditRequest → Bool
unfolding valid_scope
valid_form r = not (
    (not (str_eq r.schema_version "1.0.0")
      || not (str_eq r.kind "request")
      || not (valid_scope r.scope)
      || str_eq r.reference ""
      || ltb 128 (len r.reference))
    || (length r.configured_sources == 0 || ltb 20 (length r.configured_sources)))

unfoldable pub validate_reference : AuditRequest → Result Error (Unit {0})
unfolding has_shape
validate_reference r =
    if str_eq r.scope "portfolio"
    then require (str_eq r.reference "all") (invalid "portfolio reference must be all" "reference")
    else require (has_shape uuid_shape r.reference)
        (invalid "scope reference must be a UUID" "reference")

unfoldable pub validate_consent : AuditRequest → Result Error (Unit {0})
validate_consent r =
    if str_eq r.consent "denied"
    then err (new_error permission_denied "audit consent denied" "consent" false)
    else require (str_eq r.consent "granted")
        (new_error approval_required "explicit audit consent required" "consent" false)

unfoldable pub valid_window : AuditRequest → Bool
valid_window r =
    not (r.starts_at == 0 || not (ltb r.starts_at r.ends_at) || ltb r.as_of r.starts_at)

unfoldable pub validate_request : AuditRequest → Result Error (Unit {0})
unfolding valid_form valid_sources validate_reference validate_consent valid_window
validate_request r =
    require (valid_form r) (invalid "invalid project audit request" "request")
    >> (require (valid_sources [] r.configured_sources)
          (invalid "invalid project audit sources" "configured_sources")
        >> (validate_reference r
            >> (validate_consent r
                >> require (valid_window r) (invalid "invalid audit window" "starts_at"))))

require-inv : (b : Bool) (e : Error) {u : Unit {0}} → require b e ≡ ok u → b ≡ true
require-inv true e h = refl
require-inv false e h = absurd cc

-- A tally of names, and the loop's own test for one.
tally-seen :
    (seen : List String) (source name : String)
    → some_of (λ s. str_eq s source) seen ≡ false
    → str_eq source name ≡ true
    → tally (λ s. str_eq s name) seen ≡ 0
tally-seen seen source name e n =
    subst (λ m. tally (λ s. str_eq s m) seen ≡ 0) ((eq_iff source name).0 n)
      (ground (arith, some_of-tally (λ s. str_eq s source) seen))

window-inv : (a b c : Bool) → not (a || not b || c) ≡ true → (a ≡ false) × (b ≡ true) × (c ≡ false)
window-inv a b c e = (ground arith, ground arith, ground arith)

and-inv : (a b : Bool) → (a && b) ≡ true → (a ≡ true) × (b ≡ true)
and-inv true b e = (refl, e)
and-inv false b e = absurd cc

or-last : (a b : Bool) → not (a || b) ≡ true → b ≡ false
or-last true b e = absurd cc
or-last false true e = absurd cc
or-last false false e = refl

-- Every source of a list stands in it once.
valid_sources-once :
    (seen sources : List String) (name : String)
    → valid_sources seen sources ≡ true
    → tally (λ s. str_eq s name) seen ≤ 1
    → tally (λ s. str_eq s name) seen + tally (λ s. str_eq s name) sources ≤ 1
unfolding valid_sources
valid_sources-once seen [] name e l = omega arith
valid_sources-once seen (source ∷ sources) name e l =
    let (good, rest) =
      and-inv (not (str_eq source "" || ltb 80 (len source) || some_of (λ s. str_eq s source) seen))
        _ e in
    let fresh : some_of (λ s. str_eq s source) seen ≡ false =
      or-last (str_eq source "" || ltb 80 (len source)) _ good in
    elim (Bool-cases (str_eq source name)) [
      | inl b ↦
          let none = tally-seen seen source name fresh b in
          let ih =
            valid_sources-once (source ∷ seen) sources name rest (rw b (omega (arith, none))) in
          ground (arith, ih)
      | inr b ↦
          let ih = valid_sources-once (source ∷ seen) sources name rest (rw b (omega (arith, l))) in
          ground (arith, ih)
    ]

consent-inv : (r : AuditRequest) → validate_consent r ≡ ok tt → str_eq r.consent "granted" ≡ true
unfolding validate_consent
consent-inv r e =
    let (_, e1) = if-eq-ok (str_eq r.consent "denied") _ _ e in
    require-inv (str_eq r.consent "granted") _ e1

form-bounds :
    (r : AuditRequest)
    → valid_form r ≡ true
    → (0 < length r.configured_sources) × (length r.configured_sources ≤ 20)
unfolding valid_form
form-bounds r e =
    let number : (length r.configured_sources == 0 || ltb 20 (length r.configured_sources))
        ≡ false =
      or-last _ _ e in
    (ground (arith, number), ground (arith, number))

-- A request that is accepted has consent, between 1 and 20 sources of which none is named twice, a
-- window that does not end before it starts or at its start, and a time that it is asked of which
-- is not before the window.
pub validate_request-IsSound :
    (r : AuditRequest)
    → validate_request r ≡ ok tt
    → (str_eq r.consent "granted" ≡ true)
      × (0 < length r.configured_sources)
      × (length r.configured_sources ≤ 20)
      × ((name : String) → tally (λ s. str_eq s name) r.configured_sources ≤ 1)
      × (r.starts_at < r.ends_at)
      × (r.starts_at ≤ r.as_of)
unfolding validate_request
validate_request-IsSound r e =
    let (_, form, e1) = >>=-eq-ok (require (valid_form r) _) _ e in
    let (_, sources, e2) = >>=-eq-ok (require (valid_sources [] r.configured_sources) _) _ e1 in
    let (_, _, e3) = >>=-eq-ok (validate_reference r) _ e2 in
    let (_, consent, e4) = >>=-eq-ok (validate_consent r) _ e3 in
    let ended = require-inv (valid_window r) _ e4 in
    let formed = require-inv (valid_form r) _ form in
    let (_, w, v) =
      window-inv (r.starts_at == 0) (ltb r.starts_at r.ends_at) (ltb r.as_of r.starts_at) ended in
    let named = require-inv (valid_sources [] r.configured_sources) _ sources in
    let (few, many) = form-bounds r formed in
    (
      consent-inv r consent,
      few,
      many,
      (λ name. omega (arith, valid_sources-once [] r.configured_sources name named (omega arith))),
      ground arith,
      ground arith,
    )
