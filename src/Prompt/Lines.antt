-- ===== src/Prompt/Lines.antt =====
-- `textutil.Normalize`. A text here is valid UTF-8 already, except that `is_valid` stands for
-- utf8.ValidString.
use Prim.Native.Char.{Char, code}
use Prim.Native.String.{String, [] as empty, ◌∷◌ as ◌◂◌, ◌++◌ as append}
use codex_prompt_better.Base.{
  Bool, true, false, not, ◌||◌, ◌==◌, if◌then◌else◌, str_eq, List, [], ◌∷◌, Result, ok, err,
}
use codex_prompt_better.Base.Patterns.{Unicode, has_prefix, trim_right, trim_left, trim_space}
use codex_prompt_better.Contracts.{Error, new_error, invalid_schema}

abbrev pub is_char : Char → Char → Bool
is_char a b = code a == code b

-- `strings.ReplaceAll(input, "\r\n", "\n")`: a carriage return before a line feed is left out.
unfoldable pub join_feeds : String → String
join_feeds empty = empty
join_feeds (c ◂ s) =
    let rest = join_feeds s in
    if is_char c "\r" then if has_prefix s "\n" then rest else c ◂ rest else c ◂ rest

-- `strings.ReplaceAll(input, "\r", "\n")`
unfoldable pub feed_returns : String → String
feed_returns empty = empty
feed_returns (c ◂ s) = (if is_char c "\r" then "\n" else c) ◂ feed_returns s

abbrev onto_first : Char → List String → List String
onto_first c [] = (c ◂ empty) ∷ []
onto_first c (l ∷ ls) = (c ◂ l) ∷ ls

-- `strings.Split(s, "\n")` and `strings.Join(lines, "\n")`.
unfoldable pub split_lines : String → List String
split_lines empty = empty ∷ []
split_lines (c ◂ s) =
    let rest = split_lines s in if is_char c "\n" then empty ∷ rest else onto_first c rest

unfoldable pub join_lines : List String → String
join_lines [] = empty
join_lines (l ∷ []) = l
join_lines (l ∷ m ∷ ls) = append l (append "\n" (join_lines (m ∷ ls)))

abbrev pub is_blank_rune : Char → Bool
is_blank_rune c = is_char c " " || is_char c "\t"

module _ (unicode : Unicode) where
  -- The loop over the lines. `quiet` is `blank || len(out) == 0`: a blank line is left out then.
  unfoldable pub collapse : Bool → List String → List String
  unfolding trim_right trim_left
  collapse quiet [] = []
  collapse quiet (l ∷ ls) =
      let line = trim_right is_blank_rune l in
      elim (str_eq (trim_space unicode line) "") [
        | true ↦ elim quiet [ true ↦ collapse true ls | false ↦ empty ∷ collapse true ls ]
        | false ↦ line ∷ collapse false ls
      ]

  abbrev without_blank : String → List String → List String
  without_blank l [] = if str_eq l "" then [] else l ∷ []
  without_blank l (m ∷ ls) = l ∷ m ∷ ls

  -- The last loop, from the end.
  unfoldable pub drop_last_blanks : List String → List String
  drop_last_blanks [] = []
  drop_last_blanks (l ∷ ls) = without_blank l (drop_last_blanks ls)

  unfoldable pub tidy : String → String
  unfolding join_feeds feed_returns split_lines join_lines collapse drop_last_blanks trim_left
      trim_right
  tidy input = trim_space unicode (
      join_lines (drop_last_blanks (collapse true (split_lines (feed_returns (join_feeds input))))))

  unfoldable pub normalize : (String → Bool) → String → Result Error String
  unfolding tidy
  normalize is_valid input =
      let value = tidy input in
      if not (is_valid input)
      then err (new_error invalid_schema "input must be valid UTF-8" "input" false)
      else if str_eq value ""
      then err (new_error invalid_schema "input must not be empty" "input" false)
      else ok value
