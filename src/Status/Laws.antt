-- ===== src/Status/Laws.antt =====
-- What a status report may show.
use codex_prompt_better.Base.{
  ◌≤◌, ◌≡◌, refl, String, true, false, if◌then◌else◌, ltb, List, [], ◌∷◌, map, length, length-take,
  length-map, take, each_of, arith, All, Bool-cases, inl, inr,
}
use codex_prompt_better.Base.Sorting.{All-sort, IsOrdered, IsStrictWeak, sort-IsOrdered}
use codex_prompt_better.Base.Text.{str_lt_asym, str_lt_weak}
use codex_prompt_better.Contracts.{missing, unknown}
use codex_prompt_better.Status.{
  Source, max_errors, allowed, sanitize_code, sanitize, sanitize_source, has_kind_before, build,
}

-- The source shows at most 20 errors, all of them of the allowed codes; and no coverage but `missing`
-- if it is disabled, and none but `unknown` if it is enabled and not supported.
abbrev pub IsSanitized : Source → Type 0
IsSanitized s =
    (length s.errors ≤ max_errors)
    × (each_of allowed s.errors ≡ true)
    × (s.enabled ≡ false → s.coverage ≡ missing)
    × (s.enabled ≡ true → s.supported ≡ false → s.coverage ≡ unknown)

sanitize_code-allowed : (code : String) → allowed (sanitize_code code) ≡ true
sanitize_code-allowed code = elim (Bool-cases (allowed code)) [ inl e ↦ rw e e | inr e ↦ rw e refl ]

map-allowed : (xs : List String) → each_of allowed (map sanitize_code xs) ≡ true
map-allowed [] = refl
map-allowed (x ∷ xs) = rw (sanitize_code-allowed x) (map-allowed xs)

length-sanitize : (xs : List String) → length (sanitize xs) ≤ max_errors
unfolding sanitize
length-sanitize xs = ground (
  arith,
  length-map sanitize_code (take max_errors xs),
  length-map sanitize_code xs,
  length-take max_errors xs,
)

sanitize-allowed : (xs : List String) → each_of allowed (sanitize xs) ≡ true
unfolding sanitize
sanitize-allowed xs = map-allowed (if ltb max_errors (length xs) then take max_errors xs else xs)

sanitize_source-IsSanitized : (s : Source) → IsSanitized (sanitize_source s)
unfolding sanitize_source
sanitize_source-IsSanitized s =
    let few = length-sanitize s.errors in
    let fine = sanitize-allowed s.errors in
    (ground arith, ground arith, λ e. ground arith, λ e f. ground arith)

map-IsSanitized : (ss : List Source) → All IsSanitized (map sanitize_source ss)
map-IsSanitized [] = tt
map-IsSanitized (s ∷ ss) = (sanitize_source-IsSanitized s, map-IsSanitized ss)

has_kind_before-weak : IsStrictWeak has_kind_before
has_kind_before-weak = record {
  asym = λ x y h. str_lt_asym x.kind y.kind h;
  weak = λ x y z h k. str_lt_weak x.kind y.kind z.kind h k;
}

-- Whatever the sources report, each of a built report shows at most 20 errors, all of the allowed
-- codes, and neither a disabled nor an unsupported source claims any coverage of its own; and the
-- sources are in the order of their kinds.
pub build-IsSanitized :
    (ss : List Source) → All IsSanitized (build ss) × IsOrdered has_kind_before (build ss)
unfolding build
build-IsSanitized ss = (
  All-sort has_kind_before IsSanitized (map sanitize_source ss) (map-IsSanitized ss),
  sort-IsOrdered has_kind_before-weak (map sanitize_source ss),
)
