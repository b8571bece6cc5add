-- ===== src/Text/Token.antt =====
-- strtok(s, "q") followed by strtok(NULL, "q"), as the rule menu calls them.
use closed_bsd.Base.{
  ℕ, ◌≡◌, refl, false, [], ◌∷◌, ◌++◌, Option, none, some, arith, ◌==◌, if◌then◌else◌,
}
use closed_bsd.Text.Chars.{Text, contains}

-- The text from its first byte that is no delimiter.
unfoldable pub skip : ℕ → Text → Text
skip q [] = []
skip q (c ∷ cs) = if c == q then skip q cs else c ∷ cs

-- The token at the front, up to the delimiter.
unfoldable pub token : ℕ → Text → Text
token q [] = []
token q (c ∷ cs) = if c == q then [] else c ∷ token q cs

-- What strtok saves: the text behind the delimiter that ended the token, or nothing where the
-- token ran to the end.
unfoldable pub saved : ℕ → Text → Option Text
saved q [] = none
saved q (c ∷ cs) = if c == q then some cs else saved q cs

-- The result of one call on a text; NULL where no token is left.
unfoldable pub strtok : ℕ → Text → Option Text
unfolding skip token
strtok q s = elim (skip q s) [ [] ↦ none | c ∷ cs ↦ some (token q (c ∷ cs)) ]

unfoldable pub strtok_saved : ℕ → Text → Option Text
unfolding skip saved
strtok_saved q s = saved q (skip q s)

-- The second token.
unfoldable pub second_token : ℕ → Text → Option Text
unfolding strtok strtok_saved
second_token q s = elim (strtok_saved q s) [ none ↦ none | some r ↦ strtok q r ]

pub token_whole : (q : ℕ) (s : Text) → contains q s ≡ false → token q s ≡ s
unfolding token contains
token_whole q [] h = refl
token_whole q (c ∷ cs) h = ground (arith, token_whole q cs)

-- The token ends at the first delimiter.
pub token-append : (q : ℕ) (s rest : Text) → contains q s ≡ false → token q (s ++ q ∷ rest) ≡ s
unfolding token contains
token-append q [] rest h = ground arith
token-append q (c ∷ cs) rest h = ground (arith, token-append q cs rest)

saved-append : (q : ℕ) (s rest : Text) → contains q s ≡ false → saved q (s ++ q ∷ rest) ≡ some rest
unfolding saved contains
saved-append q [] rest h = ground arith
saved-append q (c ∷ cs) rest h = ground (arith, saved-append q cs rest)

pub skip_none : (q c : ℕ) (cs : Text) → (c == q) ≡ false → skip q (c ∷ cs) ≡ c ∷ cs
unfolding skip
skip_none q c cs h = rw h

-- A nonempty text after the first delimiter is the second token, up to the next delimiter.
pub second_token-append :
    (q c d : ℕ) (s rest : Text)
    → contains q (c ∷ s) ≡ false
    → (d == q) ≡ false
    → second_token q (c ∷ (s ++ q ∷ d ∷ rest)) ≡ some (token q (d ∷ rest))
unfolding second_token contains
second_token-append q c d s rest h k = ground (arith, saved-append q (c ∷ s) (d ∷ rest))
