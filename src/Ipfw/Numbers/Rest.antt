-- ===== src/Ipfw/Numbers/Rest.antt =====
-- How far strtoul reads.
use closed_bsd.Base.{
  ℕ, ◌+◌, ◌*◌, ◌≤◌, ◌<◌, ◌≡◌, refl, sym, ◌⊎◌, inl, inr, [], ◌∷◌, Option, none, some, arith, length,
  Option-cases, eq_of_some,
}
use closed_bsd.Ipfw.Numbers.{skip_spaces, digit_in, digits, magnitude, any_base, sign, strtoul}
use closed_bsd.Text.{Text}

skip_spaces-length : (s : Text) → length (skip_spaces s) ≤ length s
unfolding skip_spaces
skip_spaces-length [] = omega arith
skip_spaces-length (c ∷ cs) = ground (arith, skip_spaces-length cs)

digits-length : (base acc : ℕ) (s : Text) → length (digits base acc s).1 ≤ length s
unfolding digits
digits-length base acc [] = omega arith
digits-length base acc (c ∷ cs) = elim (Option-cases (digit_in base c)) [
  | inl e ↦ rw (e, digits, length) (omega arith)
  | inr (v, e) ↦ rw (e, digits, length) (omega (arith, digits-length base (acc * base + v) cs))
]

-- The text behind a number that was read is shorter.
IsBehind : Text → Option (ℕ × Text) → Type 0
IsBehind s none = Unit
IsBehind s (some found) = length found.1 < length s

magnitude-IsBehind : (base : ℕ) (s : Text) → IsBehind s (magnitude base s)
unfolding magnitude IsBehind
magnitude-IsBehind base [] = tt
magnitude-IsBehind base (c ∷ cs) = elim (Option-cases (digit_in base c)) [
  | inl e ↦ rw (e, IsBehind) tt
  | inr (v, e) ↦ rw (e, IsBehind) (omega (arith, digits-length base v cs))
]

IsBehind-le :
    (s t : Text) (o : Option (ℕ × Text)) → IsBehind s o → length s ≤ length t → IsBehind t o
unfolding IsBehind
IsBehind-le s t none h n = tt
IsBehind-le s t (some found) h n = omega arith

any_base-IsBehind : (s : Text) → IsBehind s (any_base s)
unfolding any_base
any_base-IsBehind [] = magnitude-IsBehind 10 []
any_base-IsBehind (c ∷ []) = magnitude-IsBehind 10 (c ∷ [])
any_base-IsBehind (c ∷ d ∷ cs) = ground (
  arith,
  magnitude-IsBehind 10 (c ∷ d ∷ cs),
  magnitude-IsBehind 8 (c ∷ d ∷ cs),
  IsBehind-le cs (c ∷ d ∷ cs) (magnitude 16 cs) (magnitude-IsBehind 16 cs) (omega arith),
)

sign-length : (s : Text) → length (sign s).1 ≤ length s
unfolding sign
sign-length [] = omega arith
sign-length (c ∷ cs) = ground arith

skipped-length : (s : Text) → length (sign (skip_spaces s)).1 ≤ length s
skipped-length s = omega (arith, sign-length (skip_spaces s), skip_spaces-length s)

IsBehind-some :
    (s : Text) (o : Option (ℕ × Text)) (found : ℕ × Text)
    → o ≡ some found
    → IsBehind s o
    → length found.1 < length s
unfolding IsBehind
IsBehind-some s none found e h = cc
IsBehind-some s (some other) found e h = rw (eq_of_some (sym e)) h

-- strtoul reads nothing and ends where it began, or ends behind that.
pub strtoul-rest : (s : Text) → ((strtoul s).1 ≡ s) ⊎ (length (strtoul s).1 < length s)
unfolding strtoul
strtoul-rest s = elim (Option-cases (any_base (sign (skip_spaces s)).1)) [
  | inl e ↦ inl (rw (e, strtoul) refl)
  | inr (found, e) ↦
      let kept = IsBehind-some _ _ found e (any_base-IsBehind (sign (skip_spaces s)).1) in
      inr (rw (e, strtoul, length) (omega (arith, kept, skipped-length s)))
]
