-- ===== src/App/Atoi.antt =====
-- `atoi` on any text: spaces, a sign, and the digits up to the first other character.
use tcp_lib_with_command_par.Prelude.{
  ℕ, ◌-◌, ℤ, pos, negsuc, List, [], ◌∷◌, Outcome, done, undefined, ltb, leb, ◌==◌, if◌then◌else◌,
}
use tcp_lib_with_command_par.Prelude.CString.{isspace}
use tcp_lib_with_command_par.StringUtil.{is_digit, digits_value}

abbrev leading_digits : List ℕ → List ℕ
leading_digits [] = []
leading_digits (c ∷ s) = let rest = leading_digits s in if is_digit c then c ∷ rest else []

abbrev after_spaces : List ℕ → List ℕ
after_spaces [] = []
after_spaces (c ∷ s) = let rest = after_spaces s in if isspace c then rest else c ∷ s

-- The values of `int`; any other is undefined.
abbrev int_value : ℕ → Outcome ℤ
int_value n = if ltb n 2147483648 then done (pos n) else undefined

abbrev minus_value : ℕ → Outcome ℤ
minus_value n =
    if n == 0 then done (pos 0) else if leb n 2147483648 then done (negsuc (n - 1)) else undefined

abbrev signed_value : List ℕ → Outcome ℤ
signed_value [] = done (pos 0)
signed_value (c ∷ s) =
    if c == b'-'
    then minus_value (digits_value 0 (leading_digits s))
    else if c == b'+'
    then int_value (digits_value 0 (leading_digits s))
    else int_value (digits_value 0 (leading_digits (c ∷ s)))

unfoldable pub atoi_int : List ℕ → Outcome ℤ
atoi_int s = signed_value (after_spaces s)
