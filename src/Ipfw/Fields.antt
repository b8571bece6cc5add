-- ===== src/Ipfw/Fields.antt =====
-- Words and their parts: abbreviated keywords, the pieces between commas, tables of names.
use Prim.Native.String.{String}
use closed_bsd.Base.{
  ℕ, ◌+◌, Bool, true, false, ◌&&◌, List, [], ◌∷◌, Option, none, some, ◌==◌, leb, if◌then◌else◌,
}
use closed_bsd.Text.{Text, codes, starts_with}

-- !strncmp(word, keyword, strlen(word)): the word is the keyword or the start of it.
abbrev pub spells : Text → String → Bool
spells word keyword = starts_with word (codes keyword)

abbrev extended : ℕ → List Text → List Text
extended c [] = (c ∷ []) ∷ []
extended c (piece ∷ pieces) = (c ∷ piece) ∷ pieces

-- The pieces between the commas, as `strchr(arg, ',')` cuts them until it returns NULL.
unfoldable pub pieces : Text → List Text
pieces [] = [] ∷ []
pieces (c ∷ cs) = if c == b',' then [] ∷ pieces cs else extended c (pieces cs)

-- The same where the loop also ends at an empty rest, `while (p && *p)`.
unfoldable pub up_to_empty : List Text → List Text
up_to_empty [] = []
up_to_empty ([] ∷ []) = []
up_to_empty (piece ∷ rest) = piece ∷ up_to_empty rest

abbrev pub fields : Text → List Text
fields s = up_to_empty (pieces s)

-- A leading '!', and the text behind it.
unfoldable pub negated : Text → Bool × Text
negated [] = (false, [])
negated (c ∷ cs) = if c == b'!' then (true, cs) else (false, c ∷ cs)

-- The first row of a table whose name the word is or starts.
unfoldable pub row_of {ℓ} : {A : Type ℓ} → Text → List (Text × A) → Option A
row_of word [] = none
row_of word (row ∷ rows) = if starts_with word row.0 then some row.1 else row_of word rows

lower : ℕ → ℕ
lower c = if leb b'A' c && leb c b'Z' then c + 32 else c

-- !strcasecmp(s, t)
unfoldable pub strcasecmp_eq : Text → Text → Bool
unfolding lower
strcasecmp_eq [] [] = true
strcasecmp_eq [] (d ∷ ds) = false
strcasecmp_eq (c ∷ cs) [] = false
strcasecmp_eq (c ∷ cs) (d ∷ ds) = lower c == lower d && strcasecmp_eq cs ds
