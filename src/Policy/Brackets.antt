-- ===== src/Policy/Brackets.antt =====
-- Texts without a character that an expression asks for: `load_from_yaml` and lists written line by line.
use Prim.Native.Char.{Char, code}
use Prim.Native.String.{[], ◌∷◌}
use aegis_sandbox.Prelude.{
  ℕ, ◌≡◌, ◌≢◌, refl, String, Bool, true, false, ◌||◌, none, some, List, arith, ◌==◌,
}
use aegis_sandbox.Policy.Regex.{
  Test, char, space, digit, word, dashed, inside, Group, many, either, one, star, optional, group,
  Regex, after_word, search, accepts,
}
use aegis_sandbox.Policy.Reads.{
  Repeats, stop, more, Takes, takes_many, takes_left, takes_right, Reads, done, reads_one,
  reads_star, leaves_optional, takes_optional, reads_group,
}
use aegis_sandbox.Policy.Search.{EndsIn, all, later, search_decides}
use aegis_sandbox.Policy.Yaml.{literal, key_regex, list_regex, found, yaml_syscalls}

-- Whether a character, given by its code, stands in a text.
abbrev pub has : ℕ → String → Bool
has n [] = false
has n (c ∷ s) = code c == n || has n s

-- Whether an expression asks for a character outside of every repetition.
abbrev test_asks : ℕ → Test → Bool
test_asks n (char m) = m == n
test_asks n space = false
test_asks n digit = false
test_asks n word = false
test_asks n dashed = false
test_asks n inside = false

abbrev asks : ℕ → Regex → Bool
asks n List.[] = false
asks n (List.◌∷◌ (one t) p) = test_asks n t || asks n p
asks n (List.◌∷◌ (star t) p) = asks n p
asks n (List.◌∷◌ (optional t) p) = asks n p
asks n (List.◌∷◌ (group q) p) = asks n p

accepts-test_asks :
    (n : ℕ) (t : Test) (c : Char) → accepts t c ≡ true → code c ≢ n → test_asks n t ≡ false
unfolding accepts
accepts-test_asks n (char m) c h e = ground arith
accepts-test_asks n space c h e = refl
accepts-test_asks n digit c h e = refl
accepts-test_asks n word c h e = refl
accepts-test_asks n dashed c h e = refl
accepts-test_asks n inside c h e = refl

Repeats-has :
    (n : ℕ) (t : Test) (s taken u : String)
    → Repeats t s taken u
    → has n s ≡ false
    → has n u ≡ false
Repeats-has n t s taken u stop h = h
Repeats-has n t (c ∷ s) taken u (more a d) h = Repeats-has n t s _ u d (ground arith)

after_word-has :
    (n : ℕ) (w s u : String) → after_word w s ≡ some u → has n s ≡ false → has n u ≡ false
unfolding after_word
after_word-has n [] s u e h = ground arith
after_word-has n (d ∷ w) [] u e h = ground arith
after_word-has n (d ∷ w) (c ∷ s) u e h = ground (arith, after_word-has n w s u)

Takes-has : (n : ℕ) (q : Group) (s g u : String) → Takes q s g u → has n s ≡ false → has n u ≡ false
Takes-has n (many t) (c ∷ s) g u (takes_many a d) h = Repeats-has n t s _ u d (ground arith)
Takes-has n (many t) [] g u d h = elim d [ ]
Takes-has n (either v w) s g u (takes_left e) h = after_word-has n v s u e h
Takes-has n (either v w) s g u (takes_right e) h = after_word-has n w s u e h

EndsIn-has : (n : ℕ) (u s : String) → EndsIn u s → has n s ≡ false → has n u ≡ false
EndsIn-has n u s all h = h
EndsIn-has n u (c ∷ s) (later d) h = EndsIn-has n u s d (ground arith)

Reads-asks :
    (n : ℕ) (p : Regex) (s g r : String) → Reads p s g r → asks n p ≡ true → has n s ≡ false → ⊥
Reads-asks n p s g r done a h = ground arith
Reads-asks n (List.◌∷◌ (one t) p) (c ∷ s) g r (reads_one e d) a h =
    Reads-asks n p s _ _ d (ground (arith, accepts-test_asks n t c e)) (ground arith)
Reads-asks n (List.◌∷◌ (star t) p) s g r (reads_star e d) a h =
    Reads-asks n p _ _ _ d a (Repeats-has n t s _ _ e h)
Reads-asks n (List.◌∷◌ (optional t) p) s g r (leaves_optional d) a h = Reads-asks n p s _ _ d a h
Reads-asks n (List.◌∷◌ (optional t) p) (c ∷ s) g r (takes_optional e d) a h =
    Reads-asks n p s _ _ d a (ground arith)
Reads-asks n (List.◌∷◌ (group q) p) s g r (reads_group e d) a h =
    Reads-asks n p _ _ _ d a (Takes-has n q s _ _ e h)

search_missing :
    (n : ℕ) (p : Regex) (s : String) → asks n p ≡ true → has n s ≡ false → search p s ≡ none
search_missing n p s a h =
    (search_decides p s).1.1
      (λ u g r inside d. Reads-asks n p u g r d a (EndsIn-has n u s inside h))

asks-literal : (n : ℕ) (w : String) (p : Regex) → asks n p ≡ true → asks n (literal w p) ≡ true
unfolding literal
asks-literal n [] p h = h
asks-literal n (c ∷ w) p h = ground (arith, asks-literal n w p h)

asks-list_regex : (key : String) → asks b'[' (list_regex key) ≡ true
unfolding list_regex key_regex
asks-list_regex key = asks-literal b'[' key _ refl

-- Without an opening bracket no list is found.
pub no_brackets :
    (key content : String) → has b'[' content ≡ false → yaml_syscalls key content ≡ List.[]
unfolding yaml_syscalls found
no_brackets key content h =
    rw (yaml_syscalls, found, search_missing b'[' (list_regex key) content (asks-list_regex key) h)
      refl
