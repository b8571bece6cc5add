-- ===== src/Text/Words.antt =====
-- The words that sh makes of a command line of plain bytes: it splits at blanks.
use closed_bsd.Base.{
  ℕ, ◌≡◌, refl, ◌≢◌, true, false, List, [], ◌∷◌, ◌++◌, append-nil, append_assoc, ◌∙◌, arith, ◌==◌,
  Bool, leb, ◌&&◌, ◌||◌,
}
use closed_bsd.Text.Chars.{Text, contains, contains-append}

abbrev flush : Text → List Text
flush [] = []
flush (c ∷ cs) = (c ∷ cs) ∷ []

words_from : Text → Text → List Text
words_from acc [] = flush acc
words_from acc (c ∷ cs) = elim (c == b' ') [
  | true ↦ flush acc ++ words_from [] cs
  | false ↦ words_from (acc ++ c ∷ []) cs
]

unfoldable pub words : Text → List Text
unfolding words_from
words = words_from []

-- Letters, digits and the bytes !%+,-./:@_, which mean nothing to sh.
abbrev pub is_plain_byte : ℕ → Bool
is_plain_byte c =
    (leb b'a' c && leb c b'z')
    || ((leb b'A' c && leb c b'Z')
        || ((leb b'+' c && leb c b':') || (c == b'!' || (c == b'%' || (c == b'@' || c == b'_')))))

abbrev pub is_plain : Text → Bool
is_plain [] = true
is_plain (c ∷ cs) = is_plain_byte c && is_plain cs

-- A text that is one word.
pub record IsWord (w : Text) : Type 0 where
  pub no_blank : contains b' ' w ≡ false
  pub some_byte : w ≢ []

-- A text that can stand behind a word and ends it.
abbrev pub IsBreak : Text → Type 0
IsBreak [] = Unit
IsBreak (c ∷ cs) = c ≡ b' '

words_from-append :
    (w acc t : Text) → contains b' ' w ≡ false → words_from acc (w ++ t) ≡ words_from (acc ++ w) t
unfolding words_from contains
words_from-append [] acc t h = rw append-nil
words_from-append (c ∷ cs) acc t h =
    ground (arith, words_from-append cs (acc ++ c ∷ []) t, append_assoc acc (c ∷ []) cs)

flush-IsWord : (w : Text) → w ≢ [] → flush w ≡ w ∷ []
flush-IsWord [] h = absurd (h refl)
flush-IsWord (c ∷ cs) h = refl

words_from-break : (w t : Text) → w ≢ [] → IsBreak t → words_from w t ≡ w ∷ words_from [] t
unfolding words_from
words_from-break w [] h b = flush-IsWord w h
words_from-break w (c ∷ t) h b = ground (arith, flush-IsWord w h)

-- A word in front of a break is the first word.
pub words-IsWord : (w t : Text) → IsWord w → IsBreak t → words (w ++ t) ≡ w ∷ words t
unfolding words
words-IsWord w t h b = words_from-append w [] t h.no_blank ∙ words_from-break w t h.some_byte b

pub words_blank : (t : Text) → words (b' ' ∷ t) ≡ words t
unfolding words
words_blank t = refl

pub IsWord-cons : (c : ℕ) (w : Text) → contains b' ' (c ∷ w) ≡ false → IsWord (c ∷ w)
IsWord-cons c w h = record { no_blank = h; some_byte = λ e. cc }

-- Two texts without blanks make one word, if the second is not empty.
pub IsWord-append :
    (s : Text) (c : ℕ) (t : Text)
    → contains b' ' s ≡ false
    → contains b' ' (c ∷ t) ≡ false
    → IsWord (s ++ c ∷ t)
IsWord-append [] c t h k = IsWord-cons c t k
IsWord-append (d ∷ s) c t h k =
    IsWord-cons d (s ++ c ∷ t) (contains-append b' ' (d ∷ s) (c ∷ t) ∙ rw (h, k) refl)
