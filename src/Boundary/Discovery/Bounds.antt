-- ===== src/Boundary/Discovery/Bounds.antt =====
-- How much a discovery finds: an invariant of the callback, carried along the walk.
use Prim.Native.Char.{Char}
use mathlib.Core.Path.{subst}
use codex_prompt_better.Base.{
  ℕ, ◌+◌, ◌*◌, ◌≤◌, ◌≡◌, refl, ◌∙◌, inl, inr, String, Bool, true, false, ltb, length, length-map,
  List, [], ◌∷◌, All, map, Option, some, none, Result, ok, err, Bool-cases, if-eq-ok, >>=-eq-ok,
  ok-injective, arith,
}
use codex_prompt_better.Base.Floats.{Floats, Arithmetic}
use codex_prompt_better.Base.Sorting.{length-sort, All-sort}
use codex_prompt_better.Boundary.Paths.{PathLibrary, normalize_scopes, path_depth}
use codex_prompt_better.Boundary.Resolution.{Candidate}
use codex_prompt_better.Boundary.Discovery.Steps.{
  IsLabelled, Extends, add-Extends, Advances, visit_clean-Advances,
}
use codex_prompt_better.Boundary.Discovery.{
  Entry, WalkError, Control, State, Reader, no_facts, add, visit, clean_name, add_scopes,
  empty_state, finish, link_one, link_non_goals, is_scope, is_conflicted, has_id_before, Walk,
  discover,
}

module _ (floats : Floats) (arithmetic : Arithmetic floats) (paths : PathLibrary)
    (lower : Char → Char) where
  -- The states that the callback may reach, visit by visit.
  pub data Reached (step : Entry → State floats → Result WalkError (State floats × Control))
      (s : State floats) : State floats → Type 0 where
    start : Reached step s s
    then_visit :
        (t u : State floats) (entry : Entry) (control : Control)
        → Reached step s t
        → step entry t ≡ ok (u, control)
        → Reached step s u

  -- What the documentation of fs.WalkDir says of a walk that ends without an error: the state is that
  -- of a sequence of visits without an error.
  abbrev pub IsWalk : Walk floats arithmetic paths lower → Type 0
  IsWalk walk =
      (step : Entry → State floats → Result WalkError (State floats × Control)) (s t : State floats)
      → walk step s ≡ ok t
      → Reached step s t

  -- Counted so far: at most 10000 entries, no more reads, five candidates for each entry.
  abbrev IsBounded : ℕ → State floats → Type 0
  IsBounded scopes s =
      (s.metadata_entries ≤ 10000)
      × (s.targeted_reads ≤ s.metadata_entries)
      × (length s.candidates ≤ scopes + 5 * s.metadata_entries)
      × All (IsLabelled floats arithmetic paths lower) s.candidates

  visit-IsBounded :
      (reader : Reader floats) (scopes : List String) (entry : Entry) (n : ℕ) (s t : State floats)
      (control : Control)
      → IsBounded n s
      → visit floats arithmetic paths lower reader scopes entry s ≡ ok (t, control)
      → IsBounded n t
  unfolding visit
  visit-IsBounded reader scopes entry n s t control b h =
      let counted = record s { metadata_entries = s.metadata_entries + 1 } in
      let clean = clean_name floats arithmetic paths lower entry.name in
      let (_, living) = if-eq-ok entry.failed _ _ h in
      let (_, going) = if-eq-ok entry.cancelled _ _ living in
      let (few, visited) = if-eq-ok (ltb 10000 counted.metadata_entries) _ _ going in
      let (entries, reads, found, labelled) : Advances floats arithmetic paths lower counted
          (ok (t, control)) =
        subst (Advances floats arithmetic paths lower counted) visited
          (visit_clean-Advances floats arithmetic paths lower reader scopes entry clean counted) in
      (
        ground (arith, entries, few),
        omega (arith, reads, entries, b.1),
        omega (arith, found, entries, b.2),
        labelled b.3,
      )

  Reached-IsBounded :
      (reader : Reader floats) (scopes : List String) (n : ℕ) (s : State floats)
      → IsBounded n s
      → {t : State floats} → Reached (visit floats arithmetic paths lower reader scopes) s t
      → IsBounded n t
  Reached-IsBounded reader scopes n s b start = b
  Reached-IsBounded reader scopes n s b (then_visit t u entry control before step) =
      visit-IsBounded reader scopes entry n t u control
        (Reached-IsBounded reader scopes n s b before) step

  add_scopes-Extends :
      (scopes : List String) (s : State floats)
      → Extends floats arithmetic paths lower
          (length scopes)
          s
          (add_scopes floats arithmetic paths lower scopes s)
  unfolding add_scopes
  add_scopes-Extends [] s = (refl, refl, omega arith, λ h. h)
  add_scopes-Extends (scope ∷ scopes) s =
      let one = arithmetic.hundredths 100 in
      let more =
        add floats arithmetic paths lower "scope" "user_request" scope one (path_depth scope)
          no_facts s in
      let first =
        add-Extends floats arithmetic paths lower "scope" "user_request" scope one
          (path_depth scope) no_facts s in
      let others = add_scopes-Extends scopes more in
      (
        others.0 ∙ first.0,
        others.1 ∙ first.1,
        omega (arith, others.2, first.2),
        λ labelled. others.3 (first.3 labelled),
      )

  abbrev pub IsNamed : Candidate floats → Type 0
  IsNamed c =
      (c.facts "category" ≡ some c.category)
      × (c.facts "source_kind" ≡ some c.source_kind)
      × (c.source_ref ≡ c.id)

  link_one-IsNamed :
      (all : List (Candidate floats)) (c : Candidate floats)
      → IsLabelled floats arithmetic paths lower c
      → IsNamed (link_one floats arithmetic paths lower all c)
  unfolding link_one
  link_one-IsNamed all c h = elim (Bool-cases (is_scope floats arithmetic paths lower c)) [
    | inl e ↦ rw (link_one, e) (h.0, h.1, h.2)
    | inr e ↦ elim (Bool-cases (is_conflicted floats arithmetic paths lower c)) [
      | inl k ↦ rw (link_one, e, k) (h.0, h.1, h.2)
      | inr k ↦ rw (link_one, e, k) (h.0, h.1, h.2)
    ]
  ]

  linked-IsNamed :
      (all cs : List (Candidate floats))
      → All (IsLabelled floats arithmetic paths lower) cs
      → All IsNamed (map (link_one floats arithmetic paths lower all) cs)
  linked-IsNamed all [] h = tt
  linked-IsNamed all (c ∷ cs) h = (link_one-IsNamed all c h.0, linked-IsNamed all cs h.1)

  abbrev pub IsCounted : ℕ → State floats → Type 0
  IsCounted n out =
      (out.metadata_entries ≤ 10000)
      × (out.targeted_reads ≤ out.metadata_entries)
      × (length out.candidates ≤ n + 5 * out.metadata_entries)
      × All IsNamed out.candidates

  finish-IsCounted :
      (n : ℕ) (result : Result WalkError (State floats)) (out : State floats)
      → ((s : State floats) → result ≡ ok s → IsBounded n s)
      → finish floats arithmetic paths lower result ≡ ok out
      → IsCounted n out
  unfolding finish link_non_goals
  finish-IsCounted n (err WalkError.stopped) out b h = cc
  finish-IsCounted n (err (WalkError.refused e)) out b h = cc
  finish-IsCounted n (ok s) out b h =
      let (entries, reads, found, labelled) = b s refl in
      let before = has_id_before floats arithmetic paths lower in
      let linked = link_non_goals floats arithmetic paths lower s.candidates in
      subst (IsCounted n) (ok-injective h) (
        entries,
        reads,
        omega (
          arith,
          found,
          length-sort before linked,
          length-map (link_one floats arithmetic paths lower s.candidates) s.candidates,
        ),
        All-sort before IsNamed linked (linked-IsNamed s.candidates s.candidates labelled),
      )

  -- A discovery that ends well has counted at most 10000 entries and read no more files, and has at
  -- most one candidate for each scope and five for each entry, if the walk is one of visits. Each
  -- candidate is its own source and states its category and its kind of source.
  pub discover-bounds :
      (walk : Walk floats arithmetic paths lower) (reader : Reader floats) (root : Option Bool)
      (values : List String) (out : State floats)
      → IsWalk walk
      → discover floats arithmetic paths lower walk reader root values ≡ ok out
      → (scopes : List String) × (normalize_scopes paths values ≡ ok scopes)
        × IsCounted (length scopes) out
  unfolding discover
  discover-bounds walk reader none values out walks h =
      let (scopes, normalized, found) = >>=-eq-ok (normalize_scopes paths values) _ h in cc
  discover-bounds walk reader (some false) values out walks h =
      let (scopes, normalized, found) = >>=-eq-ok (normalize_scopes paths values) _ h in
      (
        scopes,
        normalized,
        subst (IsCounted (length scopes)) (ok-injective found)
            (omega arith, omega arith, omega arith, tt),
      )
  discover-bounds walk reader (some true) values out walks h =
      let (scopes, normalized, found) = >>=-eq-ok (normalize_scopes paths values) _ h in
      let begun =
        add_scopes floats arithmetic paths lower scopes
          (empty_state floats arithmetic paths lower) in
      let (entries, reads, few, labelled) =
        add_scopes-Extends scopes (empty_state floats arithmetic paths lower) in
      let bounded : IsBounded (length scopes) begun =
        (omega (arith, entries), omega (arith, entries, reads), omega (arith, few), labelled tt) in
      let step = visit floats arithmetic paths lower reader scopes in
      (
        scopes,
        normalized,
        finish-IsCounted (length scopes) (walk step begun) out
            (λ s ended.
              Reached-IsBounded reader scopes (length scopes) begun bounded
                (walks step begun s ended))
            found,
      )
