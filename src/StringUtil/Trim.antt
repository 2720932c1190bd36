-- ===== src/StringUtil/Trim.antt =====
-- `string_space_trim` takes off exactly the white space at both ends.
use mathlib.Core.List.{append-nil, append_assoc}
use tcp_lib_with_command_par.Prelude.{
  ℕ, zero, suc, ◌-◌, ◌≤◌, ◌<◌, ◌≡◌, refl, sym, ap, ◌∙◌, Bool, true, false, ◌||◌, List, [], ◌∷◌,
  ◌++◌, inl, inr, Bool-cases, length, take, drop, get_or, arith, take-append-drop,
}
use tcp_lib_with_command_par.Prelude.CString.{isspace}
use tcp_lib_with_command_par.StringUtil.{trim_end, skip_spaces, string_space_trim}

abbrev pub AllSpace : List ℕ → Type 0
AllSpace [] = Unit
AllSpace (c ∷ s) = (isspace c ≡ true) × AllSpace s

abbrev pub first_space : List ℕ → Bool
first_space [] = false
first_space (c ∷ s) = isspace c

abbrev pub last_space : List ℕ → Bool
last_space [] = false
last_space (c ∷ []) = isspace c
last_space (c ∷ e ∷ s) = last_space (e ∷ s)

drop-all : (s : List ℕ) → drop (length s) s ≡ []
drop-all [] = refl
drop-all (c ∷ s) = drop-all s

drop-step : (n : ℕ) (s : List ℕ) → n < length s → drop n s ≡ get_or s n 0 ∷ drop (suc n) s
drop-step n [] h = elim h [ ]
drop-step zero (c ∷ s) h = refl
drop-step (suc n) (c ∷ s) h = drop-step n s (omega arith)

trim_end-AllSpace :
    (n : ℕ) (s : List ℕ) → n ≤ length s → AllSpace (drop n s) → AllSpace (drop (trim_end n s) s)
unfolding trim_end
trim_end-AllSpace zero s h a = a
trim_end-AllSpace (suc zero) s h a = a
trim_end-AllSpace (suc (suc k)) s h a = elim (Bool-cases (isspace (get_or s (suc k) 0))) [
  | inl e ↦
      rw e
        (trim_end-AllSpace (suc k) s (omega arith) (rw (drop-step (suc k) s (omega arith)) (e, a)))
  | inr e ↦ rw e a
]

last_space-take :
    (k : ℕ) (s : List ℕ) → k < length s → last_space (take (suc k) s) ≡ isspace (get_or s k 0)
last_space-take k [] h = elim h [ ]
last_space-take zero (c ∷ s) h = refl
last_space-take (suc k) (c ∷ []) h = absurd (omega arith)
last_space-take (suc k) (c ∷ e ∷ s) h = last_space-take k (e ∷ s) (omega arith)

last_space-skip_spaces : (s : List ℕ) → last_space s ≡ false → last_space (skip_spaces s) ≡ false
unfolding skip_spaces
last_space-skip_spaces [] h = refl
last_space-skip_spaces (c ∷ []) h = rw h h
last_space-skip_spaces (c ∷ e ∷ s) h = elim (Bool-cases (isspace c)) [
  | inl p ↦ rw p (last_space-skip_spaces (e ∷ s) h)
  | inr p ↦ rw p h
]

first_space-skip_spaces : (s : List ℕ) → first_space (skip_spaces s) ≡ false
unfolding skip_spaces
first_space-skip_spaces [] = refl
first_space-skip_spaces (c ∷ s) = elim (Bool-cases (isspace c)) [
  | inl p ↦ rw p (first_space-skip_spaces s)
  | inr p ↦ rw p p
]

last_space-single : (s : List ℕ) → last_space (skip_spaces (take 1 s)) ≡ false
unfolding skip_spaces
last_space-single [] = refl
last_space-single (c ∷ s) = elim (Bool-cases (isspace c)) [ inl p ↦ rw p refl | inr p ↦ rw p p ]

-- The cut of the end leaves one byte or a byte that is no space.
last_space-trim_end :
    (n : ℕ) (s : List ℕ) → n ≤ length s → last_space (skip_spaces (take (trim_end n s) s)) ≡ false
unfolding trim_end skip_spaces
last_space-trim_end zero s h = refl
last_space-trim_end (suc zero) s h = last_space-single s
last_space-trim_end (suc (suc k)) s h = elim (Bool-cases (isspace (get_or s (suc k) 0))) [
  | inl e ↦ rw e (last_space-trim_end (suc k) s (omega arith))
  | inr e ↦
      rw e (
        last_space-skip_spaces (take (suc (suc k)) s) (last_space-take (suc k) s (omega arith) ∙ e))
]

last_space-get_or :
    (c : ℕ) (s : List ℕ) → last_space (c ∷ s) ≡ isspace (get_or (c ∷ s) (length s) 0)
last_space-get_or c [] = refl
last_space-get_or c (e ∷ s) = last_space-get_or e s

-- The white space that is skipped, given as a list.
skip_spaces-split : (s : List ℕ) → (front : List ℕ) × AllSpace front × (s ≡ front ++ skip_spaces s)
unfolding skip_spaces
skip_spaces-split [] = ([], tt, refl)
skip_spaces-split (c ∷ s) = elim (Bool-cases (isspace c)) [
  | inl p ↦
      let (front, spaces, e) = skip_spaces-split s in
      (c ∷ front, (p, spaces), rw p (ap (λ l. c ∷ l) e))
  | inr p ↦ ([], tt, rw p refl)
]

-- What `string_space_trim` leaves begins and ends with no white space, and is the string without
-- some white space in front of it and behind it.
pub record Trims (s out : List ℕ) : Type 0 where
  pub front : List ℕ
  pub back : List ℕ
  pub front_spaces : AllSpace front
  pub back_spaces : AllSpace back
  pub splits : s ≡ front ++ (out ++ back)
  pub starts : first_space out ≡ false
  pub ends : last_space out ≡ false

cut-Trims : (s : List ℕ) → Trims s (skip_spaces (take (trim_end (length s) s) s))
cut-Trims s =
    let kept : List ℕ = take (trim_end (length s) s) s in
    let (front, spaces, e) = skip_spaces-split kept in
    record {
      front = front;
      back = drop (trim_end (length s) s) s;
      front_spaces = spaces;
      back_spaces = trim_end-AllSpace (length s) s (omega arith) (rw (drop-all s) tt);
      splits =
          sym (take-append-drop (trim_end (length s) s) s)
          ∙ ap (λ l. l ++ drop (trim_end (length s) s) s) e
          ∙ append_assoc front (skip_spaces kept) (drop (trim_end (length s) s) s);
      starts = first_space-skip_spaces kept;
      ends = last_space-trim_end (length s) s (omega arith);
    }

-- `string_space_trim` takes off some white space at both ends of a string, and what it leaves
-- neither begins nor ends with white space.
pub string_space_trim-Trims : (s : List ℕ) → Trims s (string_space_trim s)
unfolding string_space_trim
string_space_trim-Trims [] = record {
  front = [];
  back = [];
  front_spaces = tt;
  back_spaces = tt;
  splits = refl;
  starts = refl;
  ends = refl;
}
string_space_trim-Trims (c ∷ s) =
    elim (Bool-cases (isspace c || isspace (get_or (c ∷ s) (length (c ∷ s) - 1) 0))) [
      | inl edge ↦ rw edge (cut-Trims (c ∷ s))
      | inr none ↦ rw none (record {
        front = [];
        back = [];
        front_spaces = tt;
        back_spaces = tt;
        splits = sym (append-nil (c ∷ s));
        starts = ground (arith, none);
        ends = last_space-get_or c s ∙ ap (λ k. isspace (get_or (c ∷ s) k 0)) len ∙ or_right none;
      })
    ]
  where
    len : length s ≡ length (c ∷ s) - 1
    len = omega arith

    or_right : {b : Bool} → (isspace c || b) ≡ false → b ≡ false
    or_right e = ground arith
