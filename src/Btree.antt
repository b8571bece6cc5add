-- ===== src/Btree.antt =====
-- The Berkeley DB calls that the shell makes (dbopen, put, seq, close on a DB_BTREE file), as an
-- interface: the library is no part of this repository. Keys are the ints that the shell stores.
use closed_bsd.Base.{ℕ, ◌≡◌, ◌≢◌, Bool, true, false, ◌||◌, List, [], ◌∷◌, Option, some, ◌==◌}

abbrev pub has_key {ℓ} : {V : Type ℓ} → ℕ → List (ℕ × V) → Bool
has_key k [] = false
has_key k ((j, v) ∷ m) = j == k || has_key k m

-- What storing `v` under `k` does to the records in the order in which seq returns them: the
-- record of `k` is replaced where it stands, or a new one comes in at one place.
pub data Stored {ℓ} {V : Type ℓ} (k : ℕ) (v : V) : List (ℕ × V) → List (ℕ × V) → Type ℓ where
  replaced : {j : ℕ} {w : V} {m : List (ℕ × V)} → j ≡ k → Stored k v ((j, w) ∷ m) ((k, v) ∷ m)
  added : {m : List (ℕ × V)} → has_key k m ≡ false → Stored k v m ((k, v) ∷ m)
  later :
      {j : ℕ} {w : V} {m m' : List (ℕ × V)}
      → j ≢ k
      → Stored k v m m'
      → Stored k v ((j, w) ∷ m) ((j, w) ∷ m')

pub record Btree (V : Type 0) : Type 1 where
  pub Db : Type 0
  pub empty : Db  -- what dbopen with O_CREAT makes of a missing file
  pub scan : Db → List (ℕ × V)  -- the records that seq(R_NEXT) returns from the start
  pub put : Db → ℕ → V → Option Db  -- `none`: put returned nonzero
  pub close : Db → Db × Bool  -- the file that is left, and whether close returned 0
  pub scan-empty : scan empty ≡ []
  pub scan-put :
      (d : Db) (k : ℕ) (v : V) {d' : Db} → put d k v ≡ some d' → Stored k v (scan d) (scan d')
  pub close-true : (d : Db) → (close d).1 ≡ true → (close d).0 ≡ d
