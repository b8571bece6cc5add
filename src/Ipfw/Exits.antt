-- ===== src/Ipfw/Exits.antt =====
-- How a run of ipfw can end: errx(code, …) and exit(code) leave the program at once, and a null
-- pointer or a shift by a negative number is undefined in C.
use closed_bsd.Base.{ℕ, ◌≡◌, refl, sym}

pub data Exit {ℓ} (V : Type ℓ) : Type ℓ where
  done : V → Exit V
  errx : ℕ → Exit V
  undefined out_of_fuel : Exit V

-- The codes of <sysexits.h>.
abbrev pub ex_usage : ℕ
ex_usage = 64

abbrev pub ex_dataerr : ℕ
ex_dataerr = 65

abbrev pub ex_nohost : ℕ
ex_nohost = 68

abbrev pub ex_unavailable : ℕ
ex_unavailable = 69

module _ {ℓ κ} {V : Type ℓ} {W : Type κ} where
  infixl 5 ◌>>=◌
  abbrev pub ◌>>=◌ : Exit V → (V → Exit W) → Exit W
  done v >>= next = next v
  errx code >>= next = errx code
  undefined >>= next = undefined
  out_of_fuel >>= next = out_of_fuel

-- A run whose loops did not run out of fuel.
abbrev pub Ends {ℓ} : {V : Type ℓ} → Exit V → Type 0
Ends (done _) = Unit
Ends (errx _) = Unit
Ends undefined = Unit
Ends out_of_fuel = ⊥

module _ {ℓ κ} {V : Type ℓ} {W : Type κ} where
  pub >>=-Ends :
      (first : Exit V) (next : V → Exit W)
      → Ends first
      → ((v : V) → Ends (next v))
      → Ends (first >>= next)
  >>=-Ends (done v) next h k = k v
  >>=-Ends (errx _) next h k = tt
  >>=-Ends undefined next h k = tt
  >>=-Ends out_of_fuel next h k = h

  -- A run of two steps that comes to a value came to one after its first step.
  pub >>=-eq-done :
      (first : Exit V) (next : V → Exit W) {w : W}
      → (first >>= next) ≡ done w
      → (v : V) × (first ≡ done v) × (next v ≡ done w)
  >>=-eq-done (done v) next came = (v, refl, came)
  >>=-eq-done (errx _) next came = cc
  >>=-eq-done undefined next came = cc
  >>=-eq-done out_of_fuel next came = cc

pub done-injective {ℓ} : {V : Type ℓ} {v w : V} → done v ≡ done w → v ≡ w
done-injective same = cc

-- A predicate of the value that a run comes to.
abbrev pub Holds {ℓ κ} : {V : Type ℓ} → (V → Type κ) → Exit V → Type κ
Holds P (done v) = P v
Holds P (errx _) = Unit
Holds P undefined = Unit
Holds P out_of_fuel = Unit

module _ {ℓ κ} {V : Type ℓ} (P : V → Type κ) where
  pub Holds-done : (m : Exit V) (v : V) → Holds P m → m ≡ done v → P v
  Holds-done (done w) v h e = rw (sym (done-injective e)) h
  Holds-done (errx _) v h e = cc
  Holds-done undefined v h e = cc
  Holds-done out_of_fuel v h e = cc

  pub Holds-of : (m : Exit V) → ((v : V) → m ≡ done v → P v) → Holds P m
  Holds-of (done v) k = k v refl
  Holds-of (errx _) k = tt
  Holds-of undefined k = tt
  Holds-of out_of_fuel k = tt

pub Holds->>= {ℓ κ μ ν} :
    {V : Type ℓ} {W : Type κ} (P : V → Type μ) (Q : W → Type ν) (first : Exit V) (next : V → Exit W)
    → Holds P first
    → ((v : V) → P v → Holds Q (next v))
    → Holds Q (first >>= next)
Holds->>= P Q (done v) next h k = k v h
Holds->>= P Q (errx _) next h k = tt
Holds->>= P Q undefined next h k = tt
Holds->>= P Q out_of_fuel next h k = tt

pub Holds-imp {ℓ κ μ} :
    {V : Type ℓ} (P : V → Type κ) (Q : V → Type μ) (m : Exit V)
    → Holds P m
    → ((v : V) → P v → Q v)
    → Holds Q m
Holds-imp P Q (done v) h k = k v h
Holds-imp P Q (errx _) h k = tt
Holds-imp P Q undefined h k = tt
Holds-imp P Q out_of_fuel h k = tt

-- A run of which nothing is known.
pub Holds-any {ℓ} : {V : Type ℓ} (m : Exit V) → Holds {ℓ, 0} (λ v. Unit) m
Holds-any (done _) = tt
Holds-any (errx _) = tt
Holds-any undefined = tt
Holds-any out_of_fuel = tt
