-- ===== src/Ebpf/Layout.antt =====
-- The kernel's event records as bytes: how a C compiler for x86_64 lays a struct out, and how a
-- member is read back.
use aegis_sandbox.Prelude.{
  ℕ, zero, suc, ◌+◌, ◌-◌, ◌*◌, ◌/◌, ◌%◌, ◌^◌, ◌<◌, ◌≤◌, ◌≡◌, refl, ap, List, [], ◌∷◌, ◌++◌, arith,
  ◌==◌, ltb, if◌then◌else◌, length, take, drop, All,
}
use mathlib.Core.Path.{subst}
use native.Mathlib.Nat.{pow-suc}

-- A member of a struct: its alignment and how many bytes it has.
pub record Member : Type 0 where
  pub align : ℕ
  pub bytes : ℕ

abbrev pub unsigned : ℕ → Member
unsigned n = record { align = n; bytes = n }

-- `char name[n]`
abbrev pub chars : ℕ → Member
chars n = record { align = 1; bytes = n }

-- The next multiple of the alignment.
unfoldable pub round_up : ℕ → ℕ → ℕ
round_up offset align = (offset + align - 1) / align * align

place : ℕ → List Member → List ℕ
unfolding round_up
place offset [] = []
place offset (f ∷ fs) = round_up offset f.align ∷ place (round_up offset f.align + f.bytes) fs

-- Where each member of a struct begins.
unfoldable pub offsets : List Member → List ℕ
unfolding place
offsets = place 0

widest : List Member → ℕ
widest [] = 1
widest (f ∷ fs) = if ltb (widest fs) f.align then f.align else widest fs

end_of : ℕ → List Member → ℕ
unfolding round_up
end_of offset [] = offset
end_of offset (f ∷ fs) = end_of (round_up offset f.align + f.bytes) fs

-- `sizeof`: the end of the last member, rounded up to the alignment of the struct.
unfoldable pub sizeof : List Member → ℕ
unfolding end_of widest
sizeof fs = round_up (end_of 0 fs) (widest fs)

-- A little-endian number from its bytes.
unfoldable pub from_le : List ℕ → ℕ
from_le [] = 0
from_le (b ∷ bs) = b + 256 * from_le bs

-- The bytes of a number in `k` bytes.
unfoldable pub to_le : ℕ → ℕ → List ℕ
to_le zero n = []
to_le (suc k) n = n % 256 ∷ to_le k (n / 256)

-- The member of `n` bytes that begins at an offset.
unfoldable pub field : ℕ → ℕ → List ℕ → List ℕ
field offset n bytes = take n (drop offset bytes)

unfoldable pub number : ℕ → ℕ → List ℕ → ℕ
unfolding from_le field
number offset n bytes = from_le (field offset n bytes)

-- `std::string(s, strnlen(s, n))` of a member of `n` characters: up to the first NUL.
unfoldable pub c_string : List ℕ → List ℕ
c_string [] = []
c_string (b ∷ bs) = let rest = c_string bs in if b == 0 then [] else b ∷ rest

-- A text in a member of `k` characters: cut off at the end, and zeros behind it.
unfoldable pub pad : ℕ → List ℕ → List ℕ
pad zero cs = []
pad (suc k) [] = 0 ∷ pad k []
pad (suc k) (c ∷ cs) = c ∷ pad k cs

pub from_le-to_le : (k n : ℕ) → n < 256 ^ k → from_le (to_le k n) ≡ n
unfolding from_le to_le
from_le-to_le zero n h = omega arith
from_le-to_le (suc k) n h =
    omega (arith, pow-suc 256 k, from_le-to_le k (n / 256) (omega (arith, pow-suc 256 k)))

pub length-pad : (k : ℕ) (cs : List ℕ) → length (pad k cs) ≡ k
unfolding pad
length-pad zero cs = refl
length-pad (suc k) [] = ap suc (length-pad k [])
length-pad (suc k) (c ∷ cs) = ap suc (length-pad k cs)

pub c_string-pad :
    (k : ℕ) (cs : List ℕ) → length cs ≤ k → All (λ c. 0 < c) cs → c_string (pad k cs) ≡ cs
unfolding c_string pad
c_string-pad zero [] h p = refl
c_string-pad zero (c ∷ cs) h p = absurd (omega arith)
c_string-pad (suc k) [] h p = refl
c_string-pad (suc k) (c ∷ cs) h p = ground (arith, c_string-pad k cs)

module _ {ℓ} {A : Type ℓ} where
  pub take-append : (xs ys : List A) → take (length xs) (xs ++ ys) ≡ xs
  take-append [] ys = refl
  take-append (x ∷ xs) ys = ap (◌∷◌ x) (take-append xs ys)

  pub drop-append : (xs ys : List A) → drop (length xs) (xs ++ ys) ≡ ys
  drop-append [] ys = refl
  drop-append (x ∷ xs) ys = drop-append xs ys

-- Reading what stands before and behind a padded text.
pub take-pad : (k : ℕ) (cs ys : List ℕ) → take k (pad k cs ++ ys) ≡ pad k cs
take-pad k cs ys =
    subst (λ n. take n (pad k cs ++ ys) ≡ pad k cs) (length-pad k cs) (take-append (pad k cs) ys)

pub drop-pad : (k : ℕ) (cs ys : List ℕ) → drop k (pad k cs ++ ys) ≡ ys
drop-pad k cs ys =
    subst (λ n. drop n (pad k cs ++ ys) ≡ ys) (length-pad k cs) (drop-append (pad k cs) ys)
