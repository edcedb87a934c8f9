-- ===== src/Policy/Tokens.antt =====
-- The names that `load_from_yaml` takes out of a list: they are the list's words.
use Prim.Native.Char.{Char}
use Prim.Native.String.{[], ◌∷◌}
use aegis_sandbox.Prelude.{
  ℕ, zero, suc, ◌<◌, ◌≤◌, ◌≡◌, ◌≢◌, ◌⊎◌, inl, inr, refl, ap, sym, subst, ◌∙◌, String, Bool, true,
  false, Option, none, some, List, arith, if◌then◌else◌, Bool-cases, Option-cases,
}
use aegis_sandbox.Prelude.Chars.{is_letter, is_digit}
use aegis_sandbox.Prelude.Paths.{size}
use aegis_sandbox.Policy.Regex.{
  char, word, optional, accepts, Match, Rest, or_else, take_optional, grab_star, grab_plus, grab,
  match_here, search,
}
use aegis_sandbox.Policy.Yaml.{token_regex, tokens}

-- A letter, a digit or an underscore; and a quotation mark, which is none of them.
abbrev is_word : Char → Bool
is_word = accepts word

abbrev is_quote : Char → Bool
is_quote = accepts (char b'"')

word_no_quote : (c : Char) → is_word c ≡ true → is_quote c ≡ false
unfolding accepts is_letter is_digit
word_no_quote c h = ground arith

-- A word in progress, in front of the words behind it.
abbrev add_word : String → List String → List String
add_word [] ws = ws
add_word (c ∷ w) ws = List.◌∷◌ (c ∷ w) ws

-- The word characters that a text begins with, and the words behind them.
abbrev split_words : String → String × List String
split_words [] = ([], List.[])
split_words (c ∷ s) =
    let (w, ws) = split_words s in if is_word c then (c ∷ w, ws) else ([], add_word w ws)

-- The words of a text: its longest runs of letters, digits and underscores, in order.
abbrev pub words : String → List String
words s = add_word (split_words s).0 (split_words s).1

after_run : String → String
after_run [] = []
after_run (c ∷ s) = let rest = after_run s in if is_word c then rest else c ∷ s

drop_quote : String → String
drop_quote [] = []
drop_quote (c ∷ s) = if is_quote c then s else c ∷ s

-- A character in front that belongs to no word changes nothing.
words_skip : (c : Char) (s : String) → is_word c ≡ false → words (c ∷ s) ≡ words s
words_skip c s h = rw h refl

split_other : (c : Char) (s : String) → is_word c ≡ false → split_words (c ∷ s) ≡ ([], words s)
split_other c s h = rw h refl

after_other : (c : Char) (s : String) → is_word c ≡ false → after_run (c ∷ s) ≡ c ∷ s
unfolding after_run
after_other c s h = rw h refl

split_words-after_run : (s : String) → (split_words s).1 ≡ words (after_run s)
unfolding after_run
split_words-after_run [] = refl
split_words-after_run (c ∷ s) = elim (Bool-cases (is_word c)) [
  | inl holds ↦ rw holds (split_words-after_run s)
  | inr fails ↦
      ap (λ p. p.1) (split_other c s fails)
      ∙ sym (ap words (after_other c s fails) ∙ words_skip c s fails)
]

quote_no_word : (c : Char) → is_quote c ≡ true → is_word c ≡ false
quote_no_word c h = elim (Bool-cases (is_word c)) [
  | inl holds ↦ ground (arith, word_no_quote c holds)
  | inr fails ↦ fails
]

words-drop_quote : (s : String) → words (drop_quote s) ≡ words s
unfolding drop_quote
words-drop_quote [] = refl
words-drop_quote (c ∷ s) = elim (Bool-cases (is_quote c)) [
  | inl holds ↦ rw (holds, quote_no_word c holds) refl
  | inr fails ↦ rw fails refl
]

size-after_run : (s : String) → size (drop_quote (after_run s)) ≤ size s
unfolding after_run drop_quote size
size-after_run [] = omega arith
size-after_run (c ∷ s) = ground (arith, size-after_run s)

-- What follows the group: an optional quotation mark.
abbrev closing : Rest
closing = match_here (List.◌∷◌ (optional (char b'"')) List.[])

closing_lem : (s : String) → closing s ≡ some ("", drop_quote s)
unfolding match_here take_optional drop_quote
closing_lem [] = refl
closing_lem (c ∷ s) = ground arith

grab_star_lem :
    (s : String) → grab_star word closing s ≡ some ((split_words s).0, drop_quote (after_run s))
unfolding grab_star after_run
grab_star_lem [] = ground (arith, closing_lem [])
grab_star_lem (c ∷ s) = ground (arith, grab_star_lem s, closing_lem (c ∷ s))

-- What a search tells of the words of a text.
abbrev Agrees : String → Option Match → Type 0
Agrees s none = words s ≡ List.[]
Agrees s (some (g, r)) = (words s ≡ List.◌∷◌ g (words r)) × (size r < size s)

word_first :
    (c : Char) (s : String) → is_word c ≡ true → Agrees (c ∷ s) (grab_plus word closing (c ∷ s))
unfolding grab_plus size
word_first c s h = ground (
  arith,
  grab_star_lem s,
  split_words-after_run s,
  words-drop_quote (after_run s),
  size-after_run s,
)

no_word_first :
    (k : Rest) (c : Char) (s : String) → is_word c ≡ false → grab_plus word k (c ∷ s) ≡ none
unfolding grab_plus
no_word_first k c s h = ground arith

Agrees-skip :
    (c : Char) (s : String) (m : Option Match) → is_word c ≡ false → Agrees s m → Agrees (c ∷ s) m
unfolding size
Agrees-skip c s none h a = words_skip c s h ∙ a
Agrees-skip c s (some (g, r)) h a = (words_skip c s h ∙ a.0, omega arith)

Agrees-or_else :
    (s : String) (a b : Option Match)
    → ((m : Match) → a ≡ some m → Agrees s a)
    → (a ≡ none → Agrees s b)
    → Agrees s (or_else a b)
Agrees-or_else s none b f g = g refl
Agrees-or_else s (some m) b f g = f m refl

-- The group and what follows it, at a place of the text.
abbrev grabbed : Rest
grabbed = grab_plus word closing

Agrees-grabbed : (s : String) (m : Match) → grabbed s ≡ some m → Agrees s (grabbed s)
unfolding grab_plus
Agrees-grabbed [] m e = ground arith
Agrees-grabbed (c ∷ s) m e = elim (Bool-cases (is_word c)) [
  | inl holds ↦ word_first c s holds
  | inr fails ↦ absurd ground (arith, no_word_first closing c s fails, e)
]

grabbed_word : (c : Char) (s : String) → is_word c ≡ true → grabbed (c ∷ s) ≢ none
unfolding grab_plus
grabbed_word c s h e = ground (arith, grab_star_lem s, e)

or_else-none : (a : Option Match) → or_else a none ≡ a
or_else-none none = refl
or_else-none (some m) = refl

match_plain :
    (c : Char) (s : String) → is_quote c ≡ false → match_here token_regex (c ∷ s) ≡ grabbed (c ∷ s)
unfolding token_regex match_here take_optional grab
match_plain c s h = ground arith

match_quote :
    (c : Char) (s : String) → is_quote c ≡ true → match_here token_regex (c ∷ s) ≡ grabbed s
unfolding token_regex match_here take_optional grab
match_quote c s h =
    ground (arith, no_word_first closing c s (quote_no_word c h), or_else-none (grabbed s))

match_other :
    (c : Char) (s : String)
    → is_word c ≡ false
    → (match_here token_regex (c ∷ s) ≡ grabbed s) ⊎ (match_here token_regex (c ∷ s) ≡ none)
match_other c s h = elim (Bool-cases (is_quote c)) [
  | inl quote ↦ inl (match_quote c s quote)
  | inr plain ↦ inr (match_plain c s plain ∙ no_word_first closing c s h)
]

Agrees-match_word :
    (c : Char) (s : String) (later : Option Match)
    → is_word c ≡ true
    → Agrees (c ∷ s) (or_else (match_here token_regex (c ∷ s)) later)
Agrees-match_word c s later h = rw (match_plain c s (word_no_quote c h)) (
    Agrees-or_else (c ∷ s) (grabbed (c ∷ s)) later (λ _ _. word_first c s h)
      (λ e. absurd (grabbed_word c s h e)))

search_token : (s : String) → Agrees s (search token_regex s)
unfolding search token_regex
search_token [] = refl
search_token (c ∷ s) = elim (Bool-cases (is_word c)) [
  | inl holds ↦ Agrees-match_word c s (search token_regex s) holds
  | inr fails ↦ Agrees-skip c s (search token_regex (c ∷ s)) fails (elim (match_other c s fails) [
    | inl same ↦ rw same (
        Agrees-or_else s (grabbed s) (search token_regex s) (Agrees-grabbed s)
          (λ _. search_token s))
    | inr nothing ↦ rw nothing (search_token s)
  ])
]

-- For every text, and any fuel from its length on: the names that the iterator gives are the words of
-- the text, its longest runs of letters, digits and underscores, in their order.
pub tokens_lem : (f : ℕ) (s : String) → size s ≤ f → tokens f s ≡ words s
unfolding tokens size
tokens_lem zero [] h = refl
tokens_lem zero (c ∷ s) h = ground arith
tokens_lem (suc f) s h = elim (Option-cases (search token_regex s)) [
  | inl nothing ↦ rw (nothing, tokens) (sym (subst (Agrees s) nothing (search_token s)))
  | inr ((g, r), found) ↦
      let (same, shorter) = subst (Agrees s) found (search_token s) in
      rw (found, tokens, tokens_lem f r (omega arith)) (sym same)
]
