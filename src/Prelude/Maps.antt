-- ===== src/Prelude/Maps.antt =====
-- Maps keyed by text (`std::unordered_map<std::string, V>`) as association lists with one entry
-- for each key.
use Prim.Native.Nat.{suc}
use Prim.Native.String.{String}
use mathlib.Core.Path.{◌≡◌, refl}
use mathlib.Core.Bool.{Bool, true, false}
use mathlib.Core.Option.{Option, none, some}
use mathlib.Core.List.{List, [], ◌∷◌}
use native.Mathlib.Omega.{arith}
use text.Mathlib.Text.{◌==◌ as str_eq}
use text.Mathlib.TextEquality.{eq_iff}
use text.Mathlib.TextPositions.{eq_refl}
use mathlib.Core.Logic.{◌≢◌, inl, inr}
use aegis_sandbox.Prelude.Tests.{if◌then◌else◌, Bool-cases}
use aegis_sandbox.Prelude.Lists.{length}

abbrev pub Assoc {ℓ} : Type ℓ → Type ℓ
Assoc V = List (String × V)

module _ {ℓ} {V : Type ℓ} where
  -- `find`, with `none` for `end()`.
  unfoldable pub lookup : String → Assoc V → Option V
  lookup k [] = none
  lookup k ((j, v) ∷ m) = if str_eq j k then some v else lookup k m

  -- `insert_or_assign`.
  unfoldable pub assign : String → V → Assoc V → Assoc V
  assign k v [] = (k, v) ∷ []
  assign k v ((j, w) ∷ m) = if str_eq j k then (k, v) ∷ m else (j, w) ∷ assign k v m

  -- `erase` of a key.
  unfoldable pub erase : String → Assoc V → Assoc V
  erase k [] = []
  erase k ((j, v) ∷ m) = if str_eq j k then m else (j, v) ∷ erase k m

  -- `contains`.
  unfoldable pub has_key : String → Assoc V → Bool
  unfolding lookup
  has_key k m = elim (lookup k m) [ none ↦ false | some v ↦ true ]

  pub lookup-assign :
      (k j : String) (v : V) (m : Assoc V)
      → lookup j (assign k v m) ≡ (if str_eq k j then some v else lookup j m)
  unfolding lookup assign
  lookup-assign k j v [] = refl
  lookup-assign k j v ((i, w) ∷ m) =
      ground (arith, eq_iff k j, eq_iff i k, eq_iff i j, lookup-assign k j v m)

  -- A new key adds one entry.
  pub length-assign :
      (k : String) (v : V) (m : Assoc V)
      → lookup k m ≡ none
      → length (assign k v m) ≡ suc (length m)
  unfolding lookup assign
  length-assign k v [] h = refl
  length-assign k v ((i, w) ∷ m) h = ground (arith, length-assign k v m)

  -- Erasing a key that is there removes one entry.
  pub length-erase :
      (k : String) (v : V) (m : Assoc V) → lookup k m ≡ some v → suc (length (erase k m)) ≡ length m
  unfolding lookup erase
  length-erase k v [] h = ground arith
  length-erase k v ((i, w) ∷ m) h = ground (arith, length-erase k v m)

  pub has_key-false : (k : String) (m : Assoc V) → has_key k m ≡ false → lookup k m ≡ none
  unfolding has_key
  has_key-false k m h = ground arith

  -- Erasing a new key undoes its insertion.
  pub erase-assign :
      (k : String) (v : V) (m : Assoc V) → lookup k m ≡ none → erase k (assign k v m) ≡ m
  unfolding lookup erase assign
  erase-assign k v [] h = simp eq_refl
  erase-assign k v ((i, w) ∷ m) h = ground (arith, erase-assign k v m)

  pub erase_absent : (k : String) (m : Assoc V) → lookup k m ≡ none → erase k m ≡ m
  unfolding lookup erase
  erase_absent k [] h = refl
  erase_absent k ((i, w) ∷ m) h = ground (arith, erase_absent k m)

  pub lookup-assign_self : (k : String) (v : V) (m : Assoc V) → lookup k (assign k v m) ≡ some v
  lookup-assign_self k v m = simp (lookup-assign, eq_refl)

  pub lookup-assign_ne :
      (k j : String) (v : V) (m : Assoc V) → k ≢ j → lookup j (assign k v m) ≡ lookup j m
  lookup-assign_ne k j v m h = ground (arith, lookup-assign k j v m, eq_iff k j)

module _ {ℓ} {V : Type ℓ} where
  -- No key stands twice.
  abbrev pub IsDistinct : Assoc V → Type ℓ
  IsDistinct [] = Unit
  IsDistinct ((k, v) ∷ m) = (lookup k m ≡ none) × IsDistinct m

  pub assign-IsDistinct :
      (k : String) (v : V) (m : Assoc V) → IsDistinct m → IsDistinct (assign k v m)
  unfolding assign lookup
  assign-IsDistinct k v [] d = (refl, tt)
  assign-IsDistinct k v ((j, w) ∷ m) d = elim (Bool-cases (str_eq j k)) [
    | inl same ↦ rw same (rw (← (eq_iff j k).0 same) d)
    | inr other ↦
        rw other (
          ground (arith, lookup-assign k j v m, eq_iff j k, eq_iff k j),
          assign-IsDistinct k v m d.1,
        )
  ]

  erase_missing : (k j : String) (m : Assoc V) → lookup j m ≡ none → lookup j (erase k m) ≡ none
  unfolding erase lookup
  erase_missing k j [] h = refl
  erase_missing k j ((i, w) ∷ m) h = ground (arith, erase_missing k j m)

  pub erase-IsDistinct : (k : String) (m : Assoc V) → IsDistinct m → IsDistinct (erase k m)
  unfolding erase
  erase-IsDistinct k [] d = tt
  erase-IsDistinct k ((j, w) ∷ m) d = elim (Bool-cases (str_eq j k)) [
    | inl same ↦ rw same d.1
    | inr other ↦ rw other (erase_missing k j m d.0, erase-IsDistinct k m d.1)
  ]

  pub lookup-erase :
      (k j : String) (m : Assoc V)
      → IsDistinct m
      → lookup j (erase k m) ≡ (if str_eq k j then none else lookup j m)
  unfolding erase lookup
  lookup-erase k j [] d = ground arith
  lookup-erase k j ((i, w) ∷ m) d =
      ground (arith, lookup-erase k j m, d.0, d.1, eq_iff i k, eq_iff i j, eq_iff k j)
