-- ===== src/Prelude/Decimal.antt =====
-- `std::format("{}", n)`: the decimal text of an unsigned number.
use Prim.Native.Nat.{ℕ, zero, suc, ◌+◌, ◌-◌, ◌*◌, ◌/◌, ◌%◌, ◌^◌, ◌<◌}
use Prim.Native.Char.{Char, code}
use Prim.Native.String.{String, [], ◌∷◌, ◌++◌}
use mathlib.Core.Path.{◌≡◌, refl, sym, ap, ◌∙◌}
use mathlib.Core.Logic.{inl, inr}
use mathlib.Core.Bool.{true}
use native.Mathlib.Omega.{arith}
use text.Mathlib.TextLemmas.{cons-append, nil-append, append_assoc}
use aegis_sandbox.Prelude.Tests.{ltb, ltb→lt, if◌then◌else◌, Bool-cases}
use aegis_sandbox.Prelude.Chars.{is_digit, digits_value}

digit : ℕ → String
digit zero = "0"
digit (suc zero) = "1"
digit (suc (suc zero)) = "2"
digit (suc (suc (suc zero))) = "3"
digit (suc (suc (suc (suc zero)))) = "4"
digit (suc (suc (suc (suc (suc zero))))) = "5"
digit (suc (suc (suc (suc (suc (suc zero)))))) = "6"
digit (suc (suc (suc (suc (suc (suc (suc zero))))))) = "7"
digit (suc (suc (suc (suc (suc (suc (suc (suc zero)))))))) = "8"
digit _ = "9"

-- On fuel: a number below 2 ^ 64 has at most twenty digits.
digits : ℕ → ℕ → String
unfolding digit
digits zero n = ""
digits (suc f) n =
    let more = digits f (n / 10) ++ digit (n % 10) in if ltb n 10 then digit n else more

unfoldable pub decimal : ℕ → String
unfolding digits
decimal = digits 20

decimal_large : decimal 18446744073709551615 ≡ "18446744073709551615"
unfolding decimal
decimal_large = refl

digits_value-cons :
    (m : ℕ) (c : Char) (s : String)
    → is_digit c ≡ true
    → digits_value m ((c ∷ []) ++ s) ≡ digits_value (m * 10 + (code c - 48)) s
unfolding digits_value
digits_value-cons m c s h = rw (cons-append c [] s, nil-append s, h) refl

digits_value-digit :
    (m d : ℕ) (s : String) → d < 10 → digits_value m (digit d ++ s) ≡ digits_value (m * 10 + d) s
unfolding is_digit digit
digits_value-digit m zero s h = digits_value-cons m "0" s refl
digits_value-digit m (suc zero) s h = digits_value-cons m "1" s refl
digits_value-digit m (suc (suc zero)) s h = digits_value-cons m "2" s refl
digits_value-digit m (suc (suc (suc zero))) s h = digits_value-cons m "3" s refl
digits_value-digit m (suc (suc (suc (suc zero)))) s h = digits_value-cons m "4" s refl
digits_value-digit m (suc (suc (suc (suc (suc zero))))) s h = digits_value-cons m "5" s refl
digits_value-digit m (suc (suc (suc (suc (suc (suc zero)))))) s h = digits_value-cons m "6" s refl
digits_value-digit m (suc (suc (suc (suc (suc (suc (suc zero))))))) s h =
    digits_value-cons m "7" s refl
digits_value-digit m (suc (suc (suc (suc (suc (suc (suc (suc zero)))))))) s h =
    digits_value-cons m "8" s refl
digits_value-digit m (suc (suc (suc (suc (suc (suc (suc (suc (suc zero))))))))) s h =
    digits_value-cons m "9" s refl
digits_value-digit m (suc (suc (suc (suc (suc (suc (suc (suc (suc (suc d)))))))))) s h =
    absurd (omega arith)

-- The digits of a number that has no more than the fuel are read as that number.
digits_value-digits :
    (f n : ℕ) (s : String) → n < 10 ^ f → digits_value 0 (digits f n ++ s) ≡ digits_value n s
unfolding digits
digits_value-digits zero n s h = rw (nil-append s) (ap (λ k. digits_value k s) (omega arith))
digits_value-digits (suc f) n s h = elim (Bool-cases (ltb n 10)) [
  | inl small ↦
      rw small
        (digits_value-digit 0 n s (ltb→lt n 10 small) ∙ ap (λ k. digits_value k s) (omega arith))
  | inr large ↦
      rw (large, append_assoc (digits f (n / 10)) (digit (n % 10)) s)
        (digits_value-digits f (n / 10) (digit (n % 10) ++ s) (omega arith)
          ∙ digits_value-digit (n / 10) (n % 10) s (omega arith)
          ∙ ap (λ k. digits_value k s) (omega arith))
]

-- Two numbers of at most twenty digits that are printed alike are equal.
pub decimal_injective : (m n : ℕ) → m < 10 ^ 20 → n < 10 ^ 20 → decimal m ≡ decimal n → m ≡ n
unfolding decimal digits_value
decimal_injective m n h k e =
    sym (digits_value-digits 20 m "" h)
    ∙ ap (λ t. digits_value 0 (t ++ "")) e
    ∙ digits_value-digits 20 n "" k
