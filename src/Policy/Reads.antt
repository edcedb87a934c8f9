-- ===== src/Policy/Reads.antt =====
-- What a regular expression may read, without any order of attempts, and that the matcher finds it.
use Prim.Native.Char.{Char}
use Prim.Native.String.{[], ◌∷◌}
use aegis_sandbox.Prelude.{
  String, true, ◌≡◌, ◌⊎◌, inl, inr, refl, Option, none, some, List, Bool-cases, Option-cases, arith,
}
use aegis_sandbox.Policy.Regex.{
  Test, accepts, Group, many, either, one, star, optional, group, Regex, Match, Rest, take_star,
  grab_star, grab_plus, after_word, grab_word, grab, or_else, prepend, with_group,
}

-- A text begins with `taken`, all of whose characters pass a test, and `rest` is left.
pub data Repeats : Test → String → String → String → Type 0 where
  stop : {t : Test} {s : String} → Repeats t s [] s
  more :
      {t : Test} {c : Char} {s taken rest : String}
      → accepts t c ≡ true
      → Repeats t s taken rest
      → Repeats t (c ∷ s) (c ∷ taken) rest

pub data Takes : Group → String → String → String → Type 0 where
  takes_many :
      {t : Test} {c : Char} {s taken rest : String}
      → accepts t c ≡ true
      → Repeats t s taken rest
      → Takes (many t) (c ∷ s) (c ∷ taken) rest
  takes_left : {v w s rest : String} → after_word v s ≡ some rest → Takes (either v w) s v rest
  takes_right : {v w s rest : String} → after_word w s ≡ some rest → Takes (either v w) s w rest

-- From `s` an expression may read up to `rest`, with `g` for its group.
pub data Reads : Regex → String → String → String → Type 0 where
  done : {s : String} → Reads List.[] s [] s
  reads_one :
      {t : Test} {p : Regex} {c : Char} {s g rest : String}
      → accepts t c ≡ true
      → Reads p s g rest
      → Reads (List.◌∷◌ (one t) p) (c ∷ s) g rest
  reads_star :
      {t : Test} {p : Regex} {s taken u g rest : String}
      → Repeats t s taken u
      → Reads p u g rest
      → Reads (List.◌∷◌ (star t) p) s g rest
  leaves_optional :
      {t : Test} {p : Regex} {s g rest : String}
      → Reads p s g rest
      → Reads (List.◌∷◌ (optional t) p) s g rest
  takes_optional :
      {t : Test} {p : Regex} {c : Char} {s g rest : String}
      → accepts t c ≡ true
      → Reads p s g rest
      → Reads (List.◌∷◌ (optional t) p) (c ∷ s) g rest
  reads_group :
      {q : Group} {p : Regex} {s u g h rest : String}
      → Takes q s g u
      → Reads p u h rest
      → Reads (List.◌∷◌ (group q) p) s g rest

pub take_star_sound :
    (t : Test) (k : Rest) (s : String) (m : Match)
    → take_star t k s ≡ some m
    → (taken : String) × (u : String) × Repeats t s taken u × (k u ≡ some m)
unfolding take_star
take_star_sound t k [] m e = ([], [], stop, e)
take_star_sound t k (c ∷ s) m e = elim (Bool-cases (accepts t c)) [
  | inr fails ↦ ([], c ∷ s, stop, ground (arith, fails))
  | inl holds ↦ elim (Option-cases (take_star t k s)) [
    | inl failed ↦ ([], c ∷ s, stop, ground (arith, holds, failed))
    | inr (n, found) ↦
        let (taken, u, reads, rest) = take_star_sound t k s m (ground (arith, holds, found)) in
        (c ∷ taken, u, more holds reads, rest)
  ]
]

pub take_star_complete :
    (t : Test) (k : Rest) (s taken u : String)
    → Repeats t s taken u
    → take_star t k s ≡ none
    → k u ≡ none
unfolding take_star
take_star_complete t k [] taken u stop e = e
take_star_complete t k (c ∷ s) taken u stop e = ground arith
take_star_complete t k (c ∷ s) taken u (more h d) e = take_star_complete t k s _ u d (ground arith)

pub or_else_inv :
    (a b : Option Match) (m : Match)
    → or_else a b ≡ some m
    → (a ≡ some m) ⊎ ((a ≡ none) × (b ≡ some m))
or_else_inv none b m e = inr (refl, e)
or_else_inv (some x) b m e = inl e

with_group_inv :
    (g h r : String) (o : Option Match)
    → with_group g o ≡ some (h, r)
    → (g ≡ h) × ((x : String) × (o ≡ some (x, r)))
with_group_inv g h r none e = ground arith
with_group_inv g h r (some (x, q)) e = (ground arith, (x, ground arith))

prepend_inv :
    (c : Char) (g r : String) (o : Option Match)
    → prepend c o ≡ some (g, r)
    → (x : String) × ((c ∷ x) ≡ g) × (o ≡ some (x, r))
prepend_inv c g r none e = ground arith
prepend_inv c g r (some (x, q)) e = (x, ground arith, ground arith)

-- A repetition that stops at once.
grab_stop :
    (t : Test) (k : Rest) (s g r : String)
    → with_group "" (k s) ≡ some (g, r)
    → (u : String) × (h : String) × Repeats t s g u × (k u ≡ some (h, r))
grab_stop t k s g r e =
    let (same, (h, found)) = with_group_inv "" g r (k s) e in (s, h, rw (← same) stop, found)

grab_star_sound :
    (t : Test) (k : Rest) (s g r : String)
    → grab_star t k s ≡ some (g, r)
    → (u : String) × (h : String) × Repeats t s g u × (k u ≡ some (h, r))
unfolding grab_star
grab_star_sound t k [] g r e = grab_stop t k [] g r e
grab_star_sound t k (c ∷ s) g r e = elim (Bool-cases (accepts t c)) [
  | inr fails ↦ grab_stop t k (c ∷ s) g r (ground arith)
  | inl holds ↦
      elim (or_else_inv (prepend c (grab_star t k s)) (with_group "" (k (c ∷ s))) (g, r)
        (ground arith)) [
          | inl longer ↦
              let (x, same, found) = prepend_inv c g r (grab_star t k s) longer in
              let (u, h, reads, rest) = grab_star_sound t k s x r found in
              (u, h, rw (← same) (more holds reads), rest)
          | inr (_, shorter) ↦ grab_stop t k (c ∷ s) g r shorter
        ]
]

grab_star_complete :
    (t : Test) (k : Rest) (s taken u : String)
    → Repeats t s taken u
    → grab_star t k s ≡ none
    → k u ≡ none
unfolding grab_star
grab_star_complete t k [] taken u stop e = ground arith
grab_star_complete t k (c ∷ s) taken u stop e = ground arith
grab_star_complete t k (c ∷ s) taken u (more h d) e = grab_star_complete t k s _ u d (ground arith)

grab_word_sound :
    (w : String) (k : Rest) (s g r : String)
    → grab_word w k s ≡ some (g, r)
    → (u : String) × (h : String) × (w ≡ g) × (after_word w s ≡ some u) × (k u ≡ some (h, r))
unfolding grab_word
grab_word_sound w k s g r e = elim (Option-cases (after_word w s)) [
  | inl missing ↦ ground arith
  | inr (u, read) ↦
      let (same, (h, found)) = with_group_inv w g r (k u) (ground arith) in
      (u, h, same, read, found)
]

pub grab_sound :
    (q : Group) (k : Rest) (s g r : String)
    → grab q k s ≡ some (g, r)
    → (u : String) × (h : String) × Takes q s g u × (k u ≡ some (h, r))
unfolding grab grab_plus grab_word
grab_sound (many t) k [] g r e = ground arith
grab_sound (many t) k (c ∷ s) g r e = elim (Bool-cases (accepts t c)) [
  | inr fails ↦ ground arith
  | inl holds ↦
      let (x, same, found) = prepend_inv c g r (grab_star t k s) (ground arith) in
      let (u, h, reads, rest) = grab_star_sound t k s x r found in
      (u, h, rw (← same) (takes_many holds reads), rest)
]
grab_sound (either v w) k s g r e =
    elim (or_else_inv (grab_word v k s) (grab_word w k s) (g, r) e) [
      | inl left ↦
          let (u, h, same, read, rest) = grab_word_sound v k s g r left in
          (u, h, rw (← same) (takes_left read), rest)
      | inr (_, right) ↦
          let (u, h, same, read, rest) = grab_word_sound w k s g r right in
          (u, h, rw (← same) (takes_right read), rest)
    ]

pub grab_complete :
    (q : Group) (k : Rest) (s g u : String) → Takes q s g u → grab q k s ≡ none → k u ≡ none
unfolding grab grab_plus grab_word
grab_complete (many t) k (c ∷ s) g u (takes_many h d) e =
    grab_star_complete t k s _ u d (ground arith)
grab_complete (many t) k [] g u d e = elim d [ ]
grab_complete (either v w) k s g u (takes_left h) e = ground arith
grab_complete (either v w) k s g u (takes_right h) e = ground arith
