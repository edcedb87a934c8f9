-- ===== src/Prelude/Chars.antt =====
-- Classes of characters as the C locale has them, and the number that digits spell.
use Prim.Native.Nat.{ℕ, ◌+◌, ◌-◌, ◌*◌}
use Prim.Native.Char.{Char, code}
use Prim.Native.String.{String, [], ◌∷◌}
use mathlib.Core.Bool.{Bool, ◌||◌, ◌&&◌}
use aegis_sandbox.Prelude.Tests.{leb, ◌==◌, if◌then◌else◌}

unfoldable pub is_space : Char → Bool
is_space c = code c == 32 || (leb 9 (code c) && leb (code c) 13)

unfoldable pub is_digit : Char → Bool
is_digit c = leb 48 (code c) && leb (code c) 57

unfoldable pub is_letter : Char → Bool
is_letter c = leb 65 (code c) && leb (code c) 90 || (leb 97 (code c) && leb (code c) 122)

-- The number that the digits in front of a text continue.
unfoldable pub digits_value : ℕ → String → ℕ
unfolding is_digit
digits_value n [] = n
digits_value n (c ∷ s) =
    let rest = digits_value (n * 10 + (code c - 48)) s in if is_digit c then rest else n
