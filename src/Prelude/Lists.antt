-- ===== src/Prelude/Lists.antt =====
-- Lists measured by native numbers, sets of numbers as lists, and predicates on lists.
use Prim.Native.Nat.{ℕ, zero, suc, ◌+◌}
use mathlib.Core.Path.{◌≡◌}
use mathlib.Core.Logic.{◌⊎◌}
use mathlib.Core.Bool.{Bool, true, false, ◌||◌}
use mathlib.Core.List.{List, [], ◌∷◌, ◌++◌}
use native.Mathlib.Omega.{arith}
use aegis_sandbox.Prelude.Tests.{◌==◌, if◌then◌else◌}

module _ {ℓ} {A : Type ℓ} where
  abbrev pub length : List A → ℕ
  length [] = 0
  length (x ∷ xs) = suc (length xs)

  abbrev pub take : ℕ → List A → List A
  take zero xs = []
  take (suc n) [] = []
  take (suc n) (x ∷ xs) = x ∷ take n xs

  abbrev pub drop : ℕ → List A → List A
  drop zero xs = xs
  drop (suc n) [] = []
  drop (suc n) (x ∷ xs) = drop n xs

  pub length-append : (xs ys : List A) → length (xs ++ ys) ≡ length xs + length ys
  length-append [] ys = omega arith
  length-append (x ∷ xs) ys = omega (arith, length-append xs ys)

-- A predicate on every element, by recursion.
abbrev pub All {ℓ κ} : {A : Type ℓ} → (A → Type κ) → List A → Type κ
All P [] = Unit
All P (x ∷ xs) = P x × All P xs

-- `contains` of a set of numbers, a list without order or multiplicity.
unfoldable pub contains : ℕ → List ℕ → Bool
contains n [] = false
contains n (x ∷ xs) = x == n || contains n xs

-- `insert`: a number that is there already is not put in again.
unfoldable pub insert : ℕ → List ℕ → List ℕ
unfolding contains
insert n xs = if contains n xs then xs else n ∷ xs

pub contains-insert : (n m : ℕ) (xs : List ℕ) → contains n (insert m xs) ≡ (m == n || contains n xs)
unfolding contains insert
contains-insert n m xs = ground arith

-- A predicate on some element.
abbrev pub Any {ℓ} : {A : Type ℓ} → (A → Type 0) → List A → Type 0
Any P [] = ⊥
Any P (x ∷ xs) = P x ⊎ Any P xs

-- No number of the first set is in the second.
unfoldable pub disjoint : List ℕ → List ℕ → Bool
unfolding contains
disjoint [] ys = true
disjoint (x ∷ xs) ys = if contains x ys then false else disjoint xs ys

pub contains-disjoint :
    (n : ℕ) (xs ys : List ℕ) → disjoint xs ys ≡ true → contains n xs ≡ true → contains n ys ≡ false
unfolding disjoint
contains-disjoint n [] ys d h = ground arith
contains-disjoint n (x ∷ xs) ys d h = ground (arith, contains-disjoint n xs ys)
