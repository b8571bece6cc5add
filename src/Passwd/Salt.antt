-- ===== src/Passwd/Salt.antt =====
-- The salt (`to64` and `dessalt` of closedbsd/passwd/passwd.c).
use closed_bsd.Base.{
  ℕ, zero, suc, ◌+◌, ◌-◌, ◌*◌, ◌/◌, ◌%◌, ◌<◌, ◌≡◌, refl, Bool, true, Option, some, none, [], ◌∷◌,
  ◌++◌, take, length, ltb, arith, ◌==◌, ==_iff, if◌then◌else◌, all_below, all_below_sound,
  get_elem?,
}
use native.Mathlib.Nat.{mul_assoc}
use closed_bsd.Text.{Text, codes}

abbrev itoa64 : Text
itoa64 = codes "./0123456789ABCDEFGHIJKLMNOPQRSTUVWXYZabcdefghijklmnopqrstuvwxyz"

-- itoa64[d]; the table has an entry for every d below 64.
abbrev or_nul : Option ℕ → ℕ
or_nul none = 0
or_nul (some c) = c

-- to64(s, v, n) of a v that is not negative: the bytes written, the lowest digit first.
unfoldable pub to64 : ℕ → ℕ → Text
to64 v zero = []
to64 v (suc n) = or_nul (get_elem? itoa64 (v % 64)) ∷ to64 (v / 64) n

-- The salt as `main` uses it, without the last two of its eight bytes.
unfoldable pub dessalt : ℕ → ℕ → ℕ → Text
unfolding to64
dessalt random usec sec =
    let salt = to64 random 3 ++ (to64 usec 3 ++ to64 sec 2) in take (length salt - 2) salt

-- The digit that a byte stands for.
abbrev pub digit : ℕ → ℕ
digit c = if ltb c 58 then c - 46 else if ltb c 91 then c - 53 else c - 59

abbrev pub value : Text → ℕ
value [] = 0
value (c ∷ cs) = digit c + 64 * value cs

abbrev pub places : ℕ → ℕ
places zero = 1
places (suc n) = 64 * places n

reads_back : ℕ → Bool
reads_back d = digit (or_nul (get_elem? itoa64 d)) == d

reads_back_table : all_below 64 reads_back ≡ true
unfolding all_below reads_back
reads_back_table = refl

digit-itoa64 : (d : ℕ) → d < 64 → digit (or_nul (get_elem? itoa64 d)) ≡ d
digit-itoa64 d h =
    (==_iff (digit (or_nul (get_elem? itoa64 d))) d).0
      (unfold reads_back in all_below_sound 64 reads_back d reads_back_table h)

-- The bytes that to64 writes read back as the number but for what is above its n digits.
pub value-to64 :
    (v n : ℕ) → (r : ℕ) × (v ≡ value (to64 v n) + places n * r) × (value (to64 v n) < places n)
unfolding to64
value-to64 v zero = (v, omega arith, omega arith)
value-to64 v (suc n) =
    let (r, e, b) = value-to64 (v / 64) n in
    let d = digit-itoa64 (v % 64) (omega arith) in
    (r, omega (arith, e, d, mul_assoc 64 (places n) r), omega (arith, d, b))
