-- ===== src/Loaded/Glued.antt =====
-- What ipfw makes of the command of a forward, in which "to" is a part of the word in front of it.
use closed_bsd.Base.{
  ℕ, ◌+◌, ◌≤◌, ◌≡◌, refl, inl, inr, Bool, true, false, [], ◌∷◌, ◌++◌, none, some, Option, arith,
  length, sym, ◌==◌, ◌*◌, ==_iff, eq_of_some, Option-cases,
}
use closed_bsd.Ipfw.Numbers.{
  is_digit, skip_spaces, digit_in, digits, magnitude, any_base, sign, strtoul,
}
use closed_bsd.Text.{Text, codes}

-- The last byte is 'o', which ends no number.
abbrev ends_o : Text → Bool
ends_o [] = false
ends_o (c ∷ []) = c == b'o'
ends_o (c ∷ d ∷ cs) = ends_o (d ∷ cs)

ends_o-append : (s : Text) → ends_o (s ++ codes "to") ≡ true
ends_o-append [] = refl
ends_o-append (c ∷ []) = refl
ends_o-append (c ∷ d ∷ cs) = ends_o-append (d ∷ cs)

digit_in-o : (base : ℕ) → base ≤ 16 → digit_in base b'o' ≡ none
unfolding digit_in is_digit
digit_in-o base h = ground arith

skip_spaces-o : (s : Text) → ends_o s ≡ true → ends_o (skip_spaces s) ≡ true
unfolding skip_spaces
skip_spaces-o [] h = cc
skip_spaces-o (c ∷ []) h = ground arith
skip_spaces-o (c ∷ d ∷ cs) h = ground (arith, skip_spaces-o (d ∷ cs))

sign-o : (s : Text) → ends_o s ≡ true → ends_o (sign s).1 ≡ true
unfolding sign
sign-o [] h = cc
sign-o (c ∷ []) h = ground arith
sign-o (c ∷ d ∷ cs) h = ground arith

no_digit_o : (base c : ℕ) → base ≤ 16 → (c == b'o') ≡ true → digit_in base c ≡ none
no_digit_o base c n h = rw ((==_iff c b'o').0 h) (digit_in-o base n)

digits-o :
    (base : ℕ) (s : Text)
    → base ≤ 16
    → ends_o s ≡ true
    → (acc : ℕ) → ends_o (digits base acc s).1 ≡ true
unfolding digits
digits-o base [] n h acc = cc
digits-o base (c ∷ []) n h acc = rw (no_digit_o base c n h, digits) h
digits-o base (c ∷ d ∷ cs) n h acc = elim (Option-cases (digit_in base c)) [
  | inl e ↦ rw (e, digits) h
  | inr (v, e) ↦ rw (e, digits) (digits-o base (d ∷ cs) n h (acc * base + v))
]

-- A number that is read leaves the last byte.
LeavesO : Option (ℕ × Text) → Type 0
LeavesO none = Unit
LeavesO (some found) = ends_o found.1 ≡ true

magnitude-o : (base : ℕ) (s : Text) → base ≤ 16 → ends_o s ≡ true → LeavesO (magnitude base s)
unfolding magnitude LeavesO
magnitude-o base [] n h = tt
magnitude-o base (c ∷ []) n h = rw (no_digit_o base c n h, magnitude, LeavesO) tt
magnitude-o base (c ∷ d ∷ cs) n h = elim (Option-cases (digit_in base c)) [
  | inl e ↦ rw (e, magnitude, LeavesO) tt
  | inr (v, e) ↦ rw (e, magnitude, LeavesO) (digits-o base (d ∷ cs) n h v)
]

magnitude_16-o : (c : ℕ) (s : Text) → ends_o (c ∷ s) ≡ true → LeavesO (magnitude 16 s)
unfolding magnitude LeavesO
magnitude_16-o c [] h = tt
magnitude_16-o c (d ∷ s) h = magnitude-o 16 (d ∷ s) (omega arith) h

any_base-o : (s : Text) → ends_o s ≡ true → LeavesO (any_base s)
unfolding any_base
any_base-o [] h = cc
any_base-o (c ∷ []) h = magnitude-o 10 (c ∷ []) (omega arith) h
any_base-o (c ∷ d ∷ cs) h = ground (
  arith,
  magnitude-o 10 (c ∷ d ∷ cs) (omega arith) h,
  magnitude-o 8 (c ∷ d ∷ cs) (omega arith) h,
  magnitude_16-o d cs h,
)

LeavesO-some :
    (o : Option (ℕ × Text)) (found : ℕ × Text) → o ≡ some found → LeavesO o → ends_o found.1 ≡ true
unfolding LeavesO
LeavesO-some none found e h = cc
LeavesO-some (some other) found e h = rw (eq_of_some (sym e)) h

strtoul-o : (s : Text) → ends_o s ≡ true → ends_o (strtoul s).1 ≡ true
unfolding strtoul
strtoul-o s h = elim (Option-cases (any_base (sign (skip_spaces s)).1)) [
  | inl e ↦ rw (e, strtoul) h
  | inr (found, e) ↦
      rw (e, strtoul)
        (LeavesO-some _ found e
          (any_base-o (sign (skip_spaces s)).1 (sign-o (skip_spaces s) (skip_spaces-o s h))))
]

-- So no text that ends in "to" is a number.
nonempty-o : (s : Text) → ends_o s ≡ true → (length s == 0) ≡ false
nonempty-o [] h = cc
nonempty-o (c ∷ cs) h = ground arith

pub strtoul-to : (s : Text) → (length (strtoul (s ++ codes "to")).1 == 0) ≡ false
strtoul-to s = nonempty-o _ (strtoul-o (s ++ codes "to") (ends_o-append s))
