-- ===== src/Text/Cat.antt =====
-- strcat into a buffer of a fixed size. A write past the end of the buffer is a fault.
use closed_bsd.Base.{
  ℕ, ◌+◌, ◌≤◌, ◌<◌, ◌≡◌, refl, sym, ap, ◌∙◌, Bool, List, [], ◌∷◌, ◌++◌, append-nil, append_assoc,
  arith, ltb, lt→ltb, if◌then◌else◌, length, length-append,
}
use closed_bsd.Text.Chars.{Text}
use closed_bsd.Fault.{Result, ok, fault, overflow, ◌>>=◌}

-- strcat(buf, s) with `char buf[cap]`: the bytes and the terminating zero must fit.
unfoldable pub strcat : ℕ → Text → Text → Result Text
strcat cap buf s = if ltb (length buf + length s) cap then ok (buf ++ s) else fault overflow

-- One strcat for each piece, in order.
unfoldable pub strcat_all : ℕ → Text → List Text → Result Text
unfolding strcat
strcat_all cap buf [] = ok buf
strcat_all cap buf (s ∷ ss) = strcat cap buf s >>= λ b. strcat_all cap b ss

-- `if (test) strcat(buf, s)` as the pieces it appends.
abbrev pub when : Bool → List Text → List Text
when test ss = if test then ss else []

abbrev pub join : List Text → Text
join [] = []
join (s ∷ ss) = s ++ join ss

pub join-append : (ss ts : List Text) → join (ss ++ ts) ≡ join ss ++ join ts
join-append [] ts = refl
join-append (s ∷ ss) ts = ap (λ (t : Text). s ++ t) (join-append ss ts) ∙ sym (append_assoc s _ _)

-- Pieces that fit are all appended.
pub strcat_all-eq-ok :
    (cap : ℕ) (buf : Text) (ss : List Text)
    → length buf + length (join ss) < cap
    → strcat_all cap buf ss ≡ ok (buf ++ join ss)
unfolding strcat_all
strcat_all-eq-ok cap buf [] h = ap ok (sym (append-nil buf))
strcat_all-eq-ok cap buf (s ∷ ss) h =
    rw (lt→ltb (length buf + length s) cap (omega (arith, length-append s (join ss)))) (
      strcat_all-eq-ok cap (buf ++ s) ss
        (omega (arith, length-append s (join ss), length-append buf s))
      ∙ ap ok (append_assoc buf s (join ss)))

-- Pieces that do not fit end in the fault, from a buffer whose own text fits.
pub strcat_all-eq-overflow :
    (cap : ℕ) (buf : Text) (ss : List Text)
    → length buf < cap
    → cap ≤ length buf + length (join ss)
    → strcat_all cap buf ss ≡ fault overflow
unfolding strcat_all
strcat_all-eq-overflow cap buf [] b h = absurd (omega arith)
strcat_all-eq-overflow cap buf (s ∷ ss) b h = ground (
  arith,
  length-append s (join ss),
  length-append buf s,
  strcat_all-eq-overflow cap (buf ++ s) ss,
)

-- The bytes that the pieces take together.
abbrev pub sizes : List Text → ℕ
sizes [] = 0
sizes (s ∷ ss) = length s + sizes ss

pub length-join : (ss : List Text) → length (join ss) ≡ sizes ss
length-join [] = refl
length-join (s ∷ ss) = omega (arith, length-append s (join ss), length-join ss)

pub sizes-append : (ss ts : List Text) → sizes (ss ++ ts) ≡ sizes ss + sizes ts
sizes-append [] ts = omega arith
sizes-append (s ∷ ss) ts = omega (arith, sizes-append ss ts)
