-- ===== src/Policy/Regex.antt =====
-- The regular expressions that src/policy/policy_engine.cpp gives to `std::regex`, as the ECMAScript
-- grammar reads them: concatenations of character tests with `*`, `+` and `?`, and one group. A
-- repetition first takes as much as it can, and gives back when what follows it fails.
use Prim.Native.Char.{Char, code}
use Prim.Native.String.{[], ◌∷◌}
use aegis_sandbox.Prelude.{ℕ, String, Bool, true, false, not, ◌||◌, Option, none, some, List, ◌==◌}
use aegis_sandbox.Prelude.Chars.{is_space, is_digit, is_letter}

pub data Test : Type 0 where
  -- A character that stands for itself, by its code.
  char : ℕ → Test
  -- \s, \d, [a-zA-Z0-9_], [a-zA-Z0-9_\-] and [^\]]
  space digit word dashed inside : Test

unfoldable pub accepts : Test → Char → Bool
unfolding is_space is_digit is_letter
accepts (char n) c = code c == n
accepts space c = is_space c
accepts digit c = is_digit c
accepts word c = is_letter c || is_digit c || code c == b'_'
accepts dashed c = is_letter c || is_digit c || code c == b'_' || code c == b'-'
accepts inside c = not (code c == b']')

-- The group: a test one or more times, or one of two words.
pub data Group : Type 0 where
  many : Test → Group
  either : String → String → Group

pub data Item : Type 0 where
  one : Test → Item
  star : Test → Item
  optional : Test → Item
  group : Group → Item

abbrev pub Regex : Type 0
Regex = List Item

-- The text of the group, and the text behind the match.
abbrev pub Match : Type 0
Match = String × String

abbrev pub or_else {ℓ} : {A : Type ℓ} → Option A → Option A → Option A
or_else a b = elim a [ some x ↦ some x | none ↦ b ]

-- What follows a repetition or a group, from the text that is left.
abbrev pub Rest : Type 0
Rest = String → Option Match

-- `t*`, and then the rest.
unfoldable pub take_star : Test → Rest → Rest
unfolding accepts
take_star t k [] = k []
take_star t k (c ∷ s) = elim (accepts t c) [
  | true ↦ or_else (take_star t k s) (k (c ∷ s))
  | false ↦ k (c ∷ s)
]

unfoldable pub take_optional : Test → Rest → Rest
unfolding accepts
take_optional t k [] = k []
take_optional t k (c ∷ s) = elim (accepts t c) [
  | true ↦ or_else (k s) (k (c ∷ s))
  | false ↦ k (c ∷ s)
]

-- A match whose group begins with one more character.
abbrev pub prepend : Char → Option Match → Option Match
prepend c none = none
prepend c (some (g, r)) = some (c ∷ g, r)

abbrev pub with_group : String → Option Match → Option Match
with_group g none = none
with_group g (some (h, r)) = some (g, r)

-- `(t*)`, and then the rest; the group is what the repetition takes.
unfoldable pub grab_star : Test → Rest → Rest
unfolding accepts
grab_star t k [] = with_group "" (k [])
grab_star t k (c ∷ s) = elim (accepts t c) [
  | true ↦ or_else (prepend c (grab_star t k s)) (with_group "" (k (c ∷ s)))
  | false ↦ with_group "" (k (c ∷ s))
]

unfoldable pub grab_plus : Test → Rest → Rest
unfolding accepts grab_star
grab_plus t k [] = none
grab_plus t k (c ∷ s) = elim (accepts t c) [ true ↦ prepend c (grab_star t k s) | false ↦ none ]

-- What is left behind a prefix.
unfoldable pub after_word : String → String → Option String
after_word [] s = some s
after_word (d ∷ w) [] = none
after_word (d ∷ w) (c ∷ s) = elim (code c == code d) [ true ↦ after_word w s | false ↦ none ]

unfoldable pub grab_word : String → Rest → Rest
unfolding after_word
grab_word w k s = elim (after_word w s) [ none ↦ none | some r ↦ with_group w (k r) ]

unfoldable pub grab : Group → Rest → Rest
unfolding grab_plus grab_word
grab (many t) k s = grab_plus t k s
grab (either v w) k s = or_else (grab_word v k s) (grab_word w k s)

-- A match from the beginning of a text.
unfoldable pub match_here : Regex → Rest
unfolding accepts take_star take_optional grab
match_here List.[] s = some ("", s)
match_here (List.◌∷◌ (one t) p) [] = none
match_here (List.◌∷◌ (one t) p) (c ∷ s) = elim (accepts t c) [
  | true ↦ match_here p s
  | false ↦ none
]
match_here (List.◌∷◌ (star t) p) s = take_star t (match_here p) s
match_here (List.◌∷◌ (optional t) p) s = take_optional t (match_here p) s
match_here (List.◌∷◌ (group g) p) s = grab g (match_here p) s

-- `std::regex_search`: the leftmost match.
unfoldable pub search : Regex → Rest
unfolding match_here
search p [] = match_here p []
search p (c ∷ s) = or_else (match_here p (c ∷ s)) (search p s)
