-- ===== src/Boundary/Paths/Laws.antt =====
-- Which scopes are accepted.
use Prim.Native.Char.{Char, code}
use Prim.Native.String.{[] as empty, ◌∷◌ as ◌◂◌, ◌++◌ as append}
use Prim.Native.String.compare
use mathlib.Core.Path.{subst}
use text.Mathlib.TextEquality.{Char-path}
use text.Mathlib.TextLemmas.{nil-append, cons-append, append_assoc}
use text.Mathlib.TextPositions.{starts_with-append}
use codex_prompt_better.Base.{
  ℕ, suc, ◌≤◌, ◌≡◌, refl, ap, sym, ◌⊎◌, inl, inr, String, Bool, true, false, ◌||◌, ◌==◌,
  if◌then◌else◌, str_eq, ltb, length, List, [], ◌∷◌, ◌++◌, some_of, tally, some_of-tally, All,
  All-append, All-map, tally-append, eq_iff, ok, ok-injective, Result-cases, ◌∙◌, Bool-cases, arith,
}
use codex_prompt_better.Base.Text.{str_lt}
use codex_prompt_better.Base.Sorting.{All-sort, tally-sort}
use codex_prompt_better.Base.Patterns.{has_prefix}
use codex_prompt_better.Boundary.Paths.{
  PathLibrary, slashes, path_depth, clean_scope, leaves_root, scopes_loop, normalize_scopes,
}

-- The names of a path between its slashes.
abbrev onto_name : Char → List String → List String
onto_name c [] = (c ◂ empty) ∷ []
onto_name c (n ∷ ns) = (c ◂ n) ∷ ns

unfoldable pub path_names : String → List String
path_names empty = empty ∷ []
path_names (c ◂ s) =
    let rest = path_names s in if code c == code "/" then empty ∷ rest else onto_name c rest

abbrev pub starts_up : List String → Bool
starts_up [] = false
starts_up (n ∷ ns) = str_eq n ".."

abbrev join_names : List String → String
join_names [] = empty
join_names (n ∷ []) = n
join_names (n ∷ m ∷ ns) = append n (append "/" (join_names (m ∷ ns)))

path_names-some : (s : String) → (n : String) × (ns : List String) × (path_names s ≡ n ∷ ns)
unfolding path_names
path_names-some empty = (empty, [], refl)
path_names-some (c ◂ s) =
    let (n, ns, e) = path_names-some s in
    elim (Bool-cases (code c == code "/")) [
      | inl k ↦ (empty, path_names s, rw (path_names, k) refl)
      | inr k ↦ (c ◂ n, ns, rw (path_names, k, e) refl)
    ]

-- One name more than there are slashes.
length-path_names : (s : String) → length (path_names s) ≡ suc (slashes s)
unfolding path_names
length-path_names empty = refl
length-path_names (c ◂ s) =
    let (n, ns, e) = path_names-some s in
    let rest = length-path_names s in
    let known : suc (length ns) ≡ suc (slashes s) = ap length (sym e) ∙ rest in
    elim (Bool-cases (code c == code "/")) [
      | inl k ↦ ground (arith, rest, k)
      | inr k ↦ rw (path_names, k, e) (ground (arith, known, k))
    ]

slashes-path_depth : (s : String) → slashes s ≤ path_depth s
slashes-path_depth empty = omega arith
slashes-path_depth (c ◂ s) = ground (arith, compare.cons-nil c s)

join_names-onto :
    (c : Char) (n : String) (ns : List String) → join_names ((c ◂ n) ∷ ns) ≡ c ◂ join_names (n ∷ ns)
join_names-onto c n [] = refl
join_names-onto c n (m ∷ ns) = cons-append c n (append "/" (join_names (m ∷ ns)))

join_names-path_names : (s : String) → join_names (path_names s) ≡ s
unfolding path_names
join_names-path_names empty = refl
join_names-path_names (c ◂ s) =
    let (n, ns, e) = path_names-some s in
    let rest = join_names-path_names s in
    elim (Bool-cases (code c == code "/")) [
      | inl k ↦
          rw (path_names, k, e)
            (nil-append _
              ∙ cons-append "/" empty _
              ∙ ap (λ t. "/" ◂ t) (nil-append _ ∙ ap join_names (sym e) ∙ rest)
              ∙ ap (λ d. d ◂ s) (sym (Char-path c "/" (ground arith))))
      | inr k ↦
          rw (path_names, k, e)
            (join_names-onto c n ns ∙ ap (λ t. c ◂ t) (ap join_names (sym e) ∙ rest))
    ]

starts_up-way_up :
    (s : String) → starts_up (path_names s) ≡ true → (str_eq s ".." || has_prefix s "../") ≡ true
starts_up-way_up s h =
    let (n, ns, e) = path_names-some s in
    let first : n ≡ ".." = (eq_iff n "..").0 (subst (λ l. starts_up l ≡ true) e h) in
    let whole : s ≡ join_names (".." ∷ ns) =
      sym (join_names-path_names s) ∙ ap join_names e ∙ ap (λ m. join_names (m ∷ ns)) first in
    rw whole (way_up ns)
  where
    way_up :
        (ns : List String)
        → (str_eq (join_names (".." ∷ ns)) ".." || has_prefix (join_names (".." ∷ ns)) "../") ≡ true
    way_up [] = refl
    way_up (m ∷ ns) =
        let rest = join_names (m ∷ ns) in
        rw (sym (append_assoc ".." "/" rest)) (ground (arith, starts_with-append "../" rest))

module _ (paths : PathLibrary) where
  -- How often a scope stands among those that are accepted.
  abbrev pub times : String → List String → ℕ
  times s scopes = tally (λ t. str_eq t s) scopes

  -- A scope that equals the next one stands among the accepted ones if that one does.
  times_same :
      (s clean : String) (result : List String)
      → (str_eq clean s ≡ false) ⊎ (some_of (λ t. str_eq t clean) result ≡ ltb 0 (times s result))
  times_same s clean result = elim (Bool-cases (str_eq clean s)) [
    | inr e ↦ inl e
    | inl e ↦ inr (
        subst (λ u. some_of (λ t. str_eq t clean) result ≡ ltb 0 (times u result))
          ((eq_iff clean s).0 e) (some_of-tally (λ t. str_eq t clean) result))
  ]

  scopes_loop-times :
      (result values : List String) (out : List String) (s : String)
      → scopes_loop paths result values ≡ ok out
      → All (λ t. leaves_root paths t ≡ false) result
      → times s result ≤ 1
      → All (λ t. leaves_root paths t ≡ false) out
        × (times s out ≡ (
            if ltb 0 (times s result) || some_of (λ v. str_eq (clean_scope paths v) s) values
            then 1
            else 0))
  unfolding scopes_loop
  scopes_loop-times result [] out s h safe once =
      let same = ok-injective h in
      subst
        (λ o.
          All (λ t. leaves_root paths t ≡ false) o
          × (times s o ≡ (if ltb 0 (times s result) || false then 1 else 0)))
        same (safe, ground arith)
  scopes_loop-times result (value ∷ values) out s h safe once =
      let clean = clean_scope paths value in
      elim (Bool-cases (leaves_root paths clean)) [
        | inl e ↦ let refused = rw (scopes_loop, e) at h in cc
        | inr e ↦ elim (Bool-cases (some_of (λ t. str_eq t clean) result)) [
          | inl k ↦
              let (all, n) =
                scopes_loop-times result values out s (rw (scopes_loop, e, k) at h) safe once in
              (
                all,
                elim (times_same s clean result) [
                  | inl other ↦ ground (arith, n, other)
                  | inr same ↦ ground (arith, n, same, k)
                ],
              )
          | inr k ↦
              let grown =
                All-append (λ t. leaves_root paths t ≡ false) result (clean ∷ []) safe (e, tt) in
              let more = tally-append (λ t. str_eq t s) result (clean ∷ []) in
              let still : times s (result ++ clean ∷ []) ≤ 1 = elim (times_same s clean result) [
                | inl other ↦ ground (arith, more, other)
                | inr same ↦ ground (arith, more, same, k)
              ] in
              let (all, n) =
                scopes_loop-times (result ++ clean ∷ []) values out s (rw (scopes_loop, e, k) at h)
                  grown still in
              (all, ground (arith, n, more))
        ]
      ]

  -- A scope that stays inside the root: not absolute, no way up first, and at most 64 names.
  abbrev pub IsInside : String → Type 0
  IsInside t =
      (paths.is_abs t ≡ false) × (starts_up (path_names t) ≡ false) × (length (path_names t) ≤ 64)

  leaves_root-IsInside : (t : String) → leaves_root paths t ≡ false → IsInside t
  leaves_root-IsInside t h = elim (Bool-cases (starts_up (path_names t))) [
    | inl up ↦ let way = starts_up-way_up t up in absurd (ground (arith, way))
    | inr down ↦ (ground arith, down, ground (arith, length-path_names t, slashes-path_depth t))
  ]

  -- An accepted scope is not absolute, has at most 64 names, and does not begin with a way up; each
  -- scope of the request stands among the accepted ones once, cleaned, and no other does.
  pub normalize_scopes-times :
      (values out : List String) (s : String)
      → normalize_scopes paths values ≡ ok out
      → All IsInside out
        × (times s out ≡ (if some_of (λ v. str_eq (clean_scope paths v) s) values then 1 else 0))
  unfolding normalize_scopes
  normalize_scopes-times values out s h = elim (Result-cases (scopes_loop paths [] values)) [
    | inl (e, k) ↦ let refused = rw (normalize_scopes, k) at h in cc
    | inr (scopes, k) ↦
        let (all, n) = scopes_loop-times [] values scopes s k tt (omega arith) in
        let same = ok-injective (rw (normalize_scopes, k) at h) in
        subst
          (λ o.
            All IsInside o
            × (times s o ≡ (if some_of (λ v. str_eq (clean_scope paths v) s) values then 1 else 0)))
          same
          (
            All-sort str_lt IsInside scopes (All-map leaves_root-IsInside scopes all),
            tally-sort str_lt (λ t. str_eq t s) scopes ∙ n,
          )
  ]
