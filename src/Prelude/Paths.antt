-- ===== src/Prelude/Paths.antt =====
-- `std::filesystem::path` as its text, and the text operations of the C++ sources.
use Prim.Native.Nat.{ℕ, zero, suc}
use Prim.Native.Char.{Char, code}
use Prim.Native.String.{String, [], ◌∷◌, ◌++◌}
use mathlib.Core.Path.{◌≡◌, refl}
use mathlib.Core.Bool.{Bool, true, false, ◌||◌}
use mathlib.Core.Option.{Option, none, some}
use text.Mathlib.Text.{starts_with, ◌==◌ as str_eq}
use aegis_sandbox.Prelude.Tests.{◌==◌, if◌then◌else◌}

is_slash : Char → Bool
is_slash c = code c == b'/'

unfoldable pub is_absolute : String → Bool
unfolding is_slash
is_absolute [] = false
is_absolute (c ∷ s) = is_slash c

-- A path needs a separator behind it unless it is empty or ends in one.
pub needs_separator : String → Bool
unfolding is_slash
needs_separator [] = false
needs_separator (c ∷ []) = if is_slash c then false else true
needs_separator (c ∷ d ∷ s) = needs_separator (d ∷ s)

-- `p / q`: an absolute right operand replaces the left one.
unfoldable pub join : String → String → String
unfolding is_absolute needs_separator
join p q = if is_absolute q then q else if needs_separator p then p ++ ("/" ++ q) else p ++ q

pub join-absolute : (p q : String) → is_absolute q ≡ true → join p q ≡ q
unfolding join
join-absolute p q h = rw h refl

before_last_slash : String → Option String
unfolding is_slash
before_last_slash [] = none
before_last_slash (c ∷ s) = elim (before_last_slash s) [
  | some r ↦ some (c ∷ r)
  | none ↦ if is_slash c then some [] else none
]

root_if_empty : String → String
root_if_empty [] = "/"
root_if_empty (c ∷ s) = c ∷ s

-- `parent_path()` of a path with single separators.
unfoldable pub parent_path : String → String
unfolding before_last_slash root_if_empty
parent_path p = elim (before_last_slash p) [ none ↦ "" | some r ↦ root_if_empty r ]

last_part : String → Option String
unfolding is_slash
last_part [] = none
last_part (c ∷ s) = elim (last_part s) [
  | some r ↦ some r
  | none ↦ if is_slash c then some s else none
]

-- `filename()`
unfoldable pub filename : String → String
unfolding last_part
filename p = elim (last_part p) [ none ↦ p | some r ↦ r ]

before_last_dot : String → Option String
before_last_dot [] = none
before_last_dot (c ∷ s) = elim (before_last_dot s) [
  | some r ↦ some (c ∷ r)
  | none ↦ if code c == b'.' then some [] else none
]

whole_if_empty : String → String → String
whole_if_empty name [] = name
whole_if_empty name (c ∷ s) = c ∷ s

-- `stem()` of a file name: without its last extension, but a name that begins with its only dot, "."
-- and ".." are stems.
unfoldable pub stem_of : String → String
unfolding before_last_dot whole_if_empty
stem_of name =
    if str_eq name ".."
    then name
    else elim (before_last_dot name) [ none ↦ name | some r ↦ whole_if_empty name r ]

-- The number of characters.
unfoldable pub size : String → ℕ
size [] = zero
size (c ∷ s) = suc (size s)

-- `substr(0, n)`, and what `strncpy` with bound `n` leaves.
unfoldable pub prefix : ℕ → String → String
prefix zero s = []
prefix (suc n) [] = []
prefix (suc n) (c ∷ s) = c ∷ prefix n s

-- A C string ends at its first NUL.
unfoldable pub until_nul : String → String
until_nul [] = []
until_nul (c ∷ s) = let rest = until_nul s in if code c == 0 then [] else c ∷ rest

-- `find(p) != npos`
unfoldable pub includes : String → String → Bool
includes p [] = starts_with [] p
includes p (c ∷ s) = starts_with (c ∷ s) p || includes p s

unfoldable pub is_empty : String → Bool
is_empty [] = true
is_empty (c ∷ s) = false

join_relative : join "/sys/fs/cgroup/aegis" "sbx-1" ≡ "/sys/fs/cgroup/aegis/sbx-1"
unfolding join
join_relative = refl

join_absolute : join "/sys/fs/cgroup/aegis" "/etc" ≡ "/etc"
unfolding join
join_absolute = refl

parent_of_root : parent_path "/sys/fs/cgroup/aegis" ≡ "/sys/fs/cgroup"
unfolding parent_path
parent_of_root = refl

includes_status : includes "HTTP/1.1 2" "HTTP/1.1 204 No Content" ≡ true
unfolding includes
includes_status = refl

stem_of_policy : stem_of (filename "/etc/aegis/strict.v2.yaml") ≡ "strict.v2"
unfolding filename stem_of
stem_of_policy = refl
