-- ===== src/Ipfw/Numbers.antt =====
-- isdigit, strtoul and atoi of the C library on a machine whose int and long have 32 bits, and
-- the bitwise "and" of two such words.
pub mod Rest
use closed_bsd.Base.{
  ℕ, zero, suc, ◌+◌, ◌-◌, ◌*◌, ◌/◌, ◌%◌, ◌≤◌, ◌≡◌, refl, sym, inl, inr, Bool, true, false, ◌&&◌,
  ◌||◌, [], ◌∷◌, Option, none, some, arith, leb, ltb, ◌==◌, if◌then◌else◌, length, Option-cases,
  eq_of_some,
}
use closed_bsd.Text.{Text}

abbrev pub word_size : ℕ
word_size = 4294967296

abbrev pub int_max : ℕ
int_max = 2147483647

unfoldable pub is_digit : ℕ → Bool
is_digit c = leb b'0' c && leb c b'9'

-- isdigit(*s), which is false of the terminating zero.
unfoldable pub starts_with_digit : Text → Bool
unfolding is_digit
starts_with_digit [] = false
starts_with_digit (c ∷ cs) = is_digit c

is_space : ℕ → Bool
is_space c = c == b' ' || leb 9 c && leb c 13

unfoldable pub skip_spaces : Text → Text
unfolding is_space
skip_spaces [] = []
skip_spaces (c ∷ cs) = if is_space c then skip_spaces cs else c ∷ cs

-- The value of a digit, where it is one of the base.
unfoldable pub digit_in : ℕ → ℕ → Option ℕ
unfolding is_digit
digit_in base c =
    let v =
      if is_digit c
      then c - 48
      else if leb b'a' c && leb c b'z'
      then c - 87
      else if leb b'A' c && leb c b'Z'
      then c - 55
      else 36 in
    if ltb v base then some v else none

-- The digits at the front: the number after `acc`, and the text behind it.
unfoldable pub digits : ℕ → ℕ → Text → ℕ × Text
digits base acc [] = (acc, [])
digits base acc (c ∷ cs) = elim (digit_in base c) [
  | none ↦ (acc, c ∷ cs)
  | some v ↦ digits base (acc * base + v) cs
]

-- A magnitude in the base, or nothing where the text does not start with a digit of it.
unfoldable pub magnitude : ℕ → Text → Option (ℕ × Text)
magnitude base [] = none
magnitude base (c ∷ cs) = elim (digit_in base c) [ none ↦ none | some v ↦ some (digits base v cs) ]

-- The base 0 takes "0x" for 16, another "0" for 8, and else 10. FreeBSD's strtoul has passed the
-- "0x" when it finds no digit behind it, and then has read nothing.
unfoldable pub any_base : Text → Option (ℕ × Text)
unfolding magnitude
any_base (c ∷ d ∷ cs) =
    if c == b'0'
    then if d == b'x' || d == b'X' then magnitude 16 cs else magnitude 8 (c ∷ d ∷ cs)
    else magnitude 10 (c ∷ d ∷ cs)
any_base cs = magnitude 10 cs

-- The sign in front.
unfoldable pub sign : Text → Bool × Text
sign [] = (false, [])
sign (c ∷ cs) = if c == b'-' then (true, cs) else if c == b'+' then (false, cs) else (false, c ∷ cs)

-- ULONG_MAX where the magnitude has more than 32 bits; else its negative, modulo the word, where
-- there is a minus.
unfoldable pub to_ulong : Bool → ℕ → ℕ
to_ulong minus n =
    if ltb n word_size then if minus then (word_size - n) % word_size else n else word_size - 1

-- strtoul(s, &end, 0): the value and the text at `end`, which is `s` where no digit is read.
unfoldable pub strtoul : Text → ℕ × Text
strtoul s =
    let signed = sign (skip_spaces s) in
    elim (any_base signed.1) [ none ↦ (0, s) | some found ↦ (to_ulong signed.0 found.0, found.1) ]

-- strtoul(s, NULL, 10)
unfoldable pub strtoul_decimal : Text → ℕ
strtoul_decimal s =
    let signed = sign (skip_spaces s) in
    elim (magnitude 10 signed.1) [ none ↦ 0 | some found ↦ to_ulong signed.0 found.0 ]

-- The clamp of strtol, as a word in two's complement.
unfoldable pub to_int : Bool → ℕ → ℕ
to_int true n = if leb n int_max then (word_size - n) % word_size else int_max + 1
to_int false n = if leb n int_max then n else int_max

-- atoi, as a word in two's complement.
unfoldable pub atoi : Text → ℕ
atoi s =
    let signed = sign (skip_spaces s) in
    elim (magnitude 10 signed.1) [ none ↦ 0 | some found ↦ to_int signed.0 found.0 ]

abbrev pub is_negative : ℕ → Bool
is_negative word = ltb int_max word

-- The bitwise "and" of the lowest bits.
unfoldable pub bit_and : ℕ → ℕ → ℕ → ℕ
bit_and zero a b = 0
bit_and (suc bits) a b = a % 2 * (b % 2) + 2 * bit_and bits (a / 2) (b / 2)
