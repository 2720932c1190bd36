-- ===== src/Prelude/CString.antt =====
-- C strings. A string is the list of its bytes before the terminating NUL; a buffer is a block of
-- memory that holds one.
use Prim.Native.Nat.{ℕ, zero, suc}
use Prim.Native.Char.{code}
use Prim.Native.String.{String}
use mathlib.Core.Bool.{Bool, true, false, ◌&&◌, ◌||◌}
use mathlib.Core.Option.{Option, none, some}
use mathlib.Core.List.{List, [], ◌∷◌}
use tcp_lib_with_command_par.Prelude.Tests.{◌==◌, leb, if◌then◌else◌}

-- The bytes of a text literal.
abbrev pub codes : String → List ℕ
codes String.[] = []
codes (String.◌∷◌ c s) = code c ∷ codes s

-- `strncmp(a, b, n) == 0`: equal in the first `n` bytes, or up to a common end before them.
unfoldable pub strncmp_eq : List ℕ → List ℕ → ℕ → Bool
strncmp_eq a b zero = true
strncmp_eq [] [] (suc n) = true
strncmp_eq [] (y ∷ b) (suc n) = false
strncmp_eq (x ∷ a) [] (suc n) = false
strncmp_eq (x ∷ a) (y ∷ b) (suc n) = x == y && strncmp_eq a b n

-- `strcmp(a, b) == 0`
unfoldable pub str_eq : List ℕ → List ℕ → Bool
str_eq [] [] = true
str_eq [] (y ∷ b) = false
str_eq (x ∷ a) [] = false
str_eq (x ∷ a) (y ∷ b) = x == y && str_eq a b

-- The string that a buffer holds: its bytes up to the first NUL; `none` if it has none.
unfoldable pub c_str : List ℕ → Option (List ℕ)
c_str [] = none
c_str (x ∷ xs) = if x == 0 then some [] else elim (c_str xs) [ none ↦ none | some s ↦ some (x ∷ s) ]

-- `isspace` in the C locale.
unfoldable pub isspace : ℕ → Bool
isspace c = c == 32 || (leb 9 c && leb c 13)
