-- ===== src/StringUtil/Search.antt =====
-- What `strstr` decides, which `pattern_match` and `grep` of CommandParser/string_util.c rest on.
use mathlib.Core.Path.{ap₂}
use tcp_lib_with_command_par.Prelude.{
  ℕ, ◌≡◌, refl, sym, ap, subst, ◌↔◌, true, inl, inr, Bool-cases, List, [], ◌∷◌, ◌++◌, length, ◌==◌,
  arith,
}
use tcp_lib_with_command_par.Prelude.CString.{strncmp_eq}
use tcp_lib_with_command_par.StringUtil.{strstr}

-- A text holds a pattern, with these parts around it.
pub record Contains (s pattern : List ℕ) : Type 0 where
  pub front : List ℕ
  pub back : List ℕ
  pub splits : s ≡ front ++ (pattern ++ back)

strncmp_eq-prefix : (s p : List ℕ) → strncmp_eq s p (length p) ≡ true → (b : List ℕ) × (s ≡ p ++ b)
unfolding strncmp_eq
strncmp_eq-prefix s [] h = (s, refl)
strncmp_eq-prefix [] (y ∷ p) h = absurd (ground arith)
strncmp_eq-prefix (x ∷ s) (y ∷ p) h = elim (Bool-cases (x == y)) [
  | inr e ↦ absurd (ground arith)
  | inl e ↦
      let (b, k) = strncmp_eq-prefix s p (ground arith) in
      let same : x ≡ y = ground arith in (b, ap₂ ◌∷◌ same k)
]

strncmp_eq-append : (p b : List ℕ) → strncmp_eq (p ++ b) p (length p) ≡ true
unfolding strncmp_eq
strncmp_eq-append [] b = refl
strncmp_eq-append (y ∷ p) b =
    let same : (y == y) ≡ true = ground arith in rw same (strncmp_eq-append p b)

strstr-start : (s p : List ℕ) → strncmp_eq s p (length p) ≡ true → strstr s p ≡ true
unfolding strstr
strstr-start [] p h = h
strstr-start (x ∷ s) p h = rw h refl

strstr-later : (x : ℕ) (s p : List ℕ) → strstr s p ≡ true → strstr (x ∷ s) p ≡ true
unfolding strstr
strstr-later x s p h = ground (arith, h)

strstr-append : (a p b : List ℕ) → strstr (a ++ (p ++ b)) p ≡ true
strstr-append [] p b = strstr-start (p ++ b) p (strncmp_eq-append p b)
strstr-append (x ∷ a) p b = strstr-later x (a ++ (p ++ b)) p (strstr-append a p b)

here : (s p : List ℕ) → strncmp_eq s p (length p) ≡ true → Contains s p
here s p h = let (b, k) = strncmp_eq-prefix s p h in record { front = []; back = b; splits = k }

strstr-found : (s p : List ℕ) → strstr s p ≡ true → Contains s p
unfolding strstr
strstr-found [] p h = here [] p h
strstr-found (x ∷ s) p h = elim (Bool-cases (strncmp_eq (x ∷ s) p (length p))) [
  | inl e ↦ here (x ∷ s) p e
  | inr e ↦
      let c = strstr-found s p (ground (arith, h, e)) in
      record { front = x ∷ c.front; back = c.back; splits = ap (λ l. x ∷ l) c.splits }
]

-- `strstr` finds the patterns that the text contains, and no others.
pub strstr-Contains : (s p : List ℕ) → (strstr s p ≡ true) ↔ Contains s p
strstr-Contains s p = (
  strstr-found s p,
  λ c. subst (λ t. strstr t p ≡ true) (sym c.splits) (strstr-append c.front p c.back),
)
