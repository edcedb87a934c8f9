-- ===== src/Cli/Numbers.antt =====
-- cmd/aegis-cli/main.cpp: the numbers among the options.
use Prim.Native.Char.{code}
use Prim.Native.String.{[], ◌∷◌}
use aegis_sandbox.Prelude.{ℕ, zero, suc, ◌-◌, ◌%◌, ◌^◌, ◌≡◌, refl, String, ◌==◌, if◌then◌else◌}
use aegis_sandbox.Prelude.Chars.{is_space, digits_value}
use aegis_sandbox.Prelude.Int.{ℤ, pos, negsuc}

negative : ℕ → ℤ
negative zero = pos 0
negative (suc n) = negsuc n

signed_value : String → ℤ
unfolding digits_value negative
signed_value [] = pos 0
signed_value (c ∷ s) =
    if code c == b'-'
    then negative (digits_value 0 s)
    else if code c == b'+'
    then pos (digits_value 0 s)
    else pos (digits_value 0 (c ∷ s))

-- `std::atoi`, of a number that an `int` holds.
unfoldable pub atoi : String → ℤ
unfolding is_space signed_value
atoi [] = pos 0
atoi (c ∷ s) = let rest = atoi s in if is_space c then rest else signed_value (c ∷ s)

-- `static_cast<uint32_t>`
unfoldable pub to_uint32 : ℤ → ℕ
to_uint32 (ℤ.pos n) = n % 2 ^ 32
to_uint32 (ℤ.negsuc n) = 2 ^ 32 - 1 - n % 2 ^ 32

minus_one_cores : to_uint32 (atoi " -1x") ≡ 4294967295
unfolding to_uint32 atoi
minus_one_cores = refl
