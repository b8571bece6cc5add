-- ===== src/Text/Prompt.antt =====
-- The numbers of the rule menu: printed in two digits, read back by atoi.
use closed_bsd.Base.{
  ℕ, ◌+◌, ◌-◌, ◌*◌, ◌/◌, ◌%◌, ◌<◌, ◌≡◌, refl, Bool, true, ◌&&◌, [], ◌∷◌, leb, ltb, ◌==◌, ==_iff,
  if◌then◌else◌, all_below, all_below_sound,
}
use closed_bsd.Text.Chars.{Text, snprintf}

is_digit : ℕ → Bool
is_digit c = leb b'0' c && leb c b'9'

-- atoi on a text with no sign and no blank: the value of its leading digits.
digits : ℕ → Text → ℕ
unfolding is_digit
digits n [] = n
digits n (c ∷ cs) = let rest = digits (n * 10 + (c - 48)) cs in if is_digit c then rest else n

unfoldable pub atoi : Text → ℕ
unfolding digits
atoi s = digits 0 s

-- "%d" of a number below one hundred; from there the two bytes that `char pr[3]` keeps of it do
-- not matter, since the menu has 32 entries.
decimal : ℕ → Text
decimal n = if ltb n 10 then (48 + n) ∷ [] else (48 + n / 10 % 10) ∷ (48 + n % 10) ∷ []

-- The prompt of entry `i`.
unfoldable pub prompt : ℕ → Text
unfolding decimal
prompt i = if ltb i 9 then snprintf 3 (b'0' ∷ decimal (i + 1)) else snprintf 3 (decimal (i + 1))

reads_back : ℕ → Bool
reads_back i = atoi (prompt i) == i + 1

reads_back_table : all_below 32 reads_back ≡ true
unfolding all_below reads_back atoi prompt
reads_back_table = refl

-- The menu's numbers read back as they were printed.
pub atoi-prompt : (i : ℕ) → i < 32 → atoi (prompt i) ≡ i + 1
atoi-prompt i h =
    (==_iff (atoi (prompt i)) (i + 1)).0
      (unfold reads_back in all_below_sound 32 reads_back i reads_back_table h)
