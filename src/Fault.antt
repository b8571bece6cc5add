-- ===== src/Fault.antt =====
-- What ends a C program in an undefined way, as values: a write past a buffer, a read of a
-- variable or of memory that nothing has written, a null pointer handed to libc.
use closed_bsd.Base.{◌≡◌, refl, ◌⊎◌, inl, inr}

pub data Kind : Type 0 where
  overflow uninitialised null : Kind

-- A run that a fault of some kind ends early, or the value that it comes to.
pub data Result {ℓ} (V : Type ℓ) : Type ℓ where
  fault : Kind → Result V
  ok : V → Result V

module _ {ℓ κ} {V : Type ℓ} {W : Type κ} where
  infixl 5 ◌>>=◌
  abbrev pub ◌>>=◌ : Result V → (V → Result W) → Result W
  fault kind >>= next = fault kind
  ok v >>= next = next v

  -- A run of two steps that comes to a value came to one after its first step.
  pub >>=-eq-ok :
      (first : Result V) (next : V → Result W) {w : W}
      → (first >>= next) ≡ ok w
      → (v : V) × (first ≡ ok v) × (next v ≡ ok w)
  >>=-eq-ok (fault kind) next came = cc
  >>=-eq-ok (ok v) next came = (v, refl, came)

pub ok-injective {ℓ} : {V : Type ℓ} {v w : V} → ok v ≡ ok w → v ≡ w
ok-injective same = cc

pub Result-cases {ℓ} :
    {V : Type ℓ} (m : Result V) → ((v : V) × (m ≡ ok v)) ⊎ ((kind : Kind) × (m ≡ fault kind))
Result-cases (ok v) = inl (v, refl)
Result-cases (fault kind) = inr (kind, refl)
