-- ===== src/Text/Chars.antt =====
-- Texts as lists of bytes, literals, and the calls with no failure: snprintf and strncmp.
use Prim.Native.Char.{code}
use Prim.Native.String.{String}
use closed_bsd.Base.{
  Option, none, some, ℕ, zero, suc, ◌≤◌, Bool, true, false, ◌&&◌, ◌||◌, List, [], ◌∷◌, arith, ◌==◌,
  length, take, length-take, ◌++◌, ◌≡◌, refl,
}

abbrev pub Text : Type 0
Text = List ℕ

-- The bytes of an ASCII literal.
abbrev pub codes : String → Text
codes String.[] = []
codes (String.◌∷◌ c s) = code c ∷ codes s

-- snprintf(buf, n, "%s", s): at most n - 1 bytes are kept.
abbrev pub snprintf : ℕ → Text → Text
snprintf zero s = []
snprintf (suc n) s = take n s

-- What "%s" prints: FreeBSD's libc prints a null pointer as "(null)".
abbrev pub printed : Option Text → Text
printed none = codes "(null)"
printed (some s) = s

-- strncmp(s, prefix, strlen(prefix)) == 0
unfoldable pub starts_with : Text → Text → Bool
starts_with [] s = true
starts_with (c ∷ cs) [] = false
starts_with (c ∷ cs) (d ∷ ds) = c == d && starts_with cs ds

pub length-snprintf : (n : ℕ) (s : Text) → length (snprintf (suc n) s) ≤ n
length-snprintf n s = omega (arith, length-take n s)

-- Whether a byte stands in a text.
unfoldable pub contains : ℕ → Text → Bool
contains b [] = false
contains b (c ∷ cs) = c == b || contains b cs

pub contains-append : (b : ℕ) (s t : Text) → contains b (s ++ t) ≡ (contains b s || contains b t)
unfolding contains
contains-append b [] t = refl
contains-append b (c ∷ cs) t = ground (arith, contains-append b cs t)
