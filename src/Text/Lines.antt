-- ===== src/Text/Lines.antt =====
-- Reading a file by fgets: a chunk ends at a newline or where the buffer is full.
use closed_bsd.Base.{
  ℕ, ◌+◌, ◌-◌, ◌≤◌, ◌<◌, ◌≡◌, refl, ◌∙◌, true, false, ◌||◌, List, [], ◌∷◌, ◌++◌, append_assoc,
  append-nil, inl, inr, arith, ◌==◌, length, Bool-cases,
}
use closed_bsd.Text.Chars.{Text, contains}
use closed_bsd.Text.Cat.{join}

-- The bytes that are left over at the end of the file are a chunk of their own.
last_chunk : Text → List Text
last_chunk [] = []
last_chunk (c ∷ cs) = (c ∷ cs) ∷ []

-- `room` more bytes fit in the buffer after `acc`; the buffer holds `size` bytes and a zero byte.
unfoldable pub chunks : ℕ → ℕ → Text → Text → List Text
unfolding last_chunk
chunks size room acc [] = last_chunk acc
chunks size room acc (c ∷ cs) = elim (c == b'\n' || room == 1) [
  | true ↦ (acc ++ c ∷ []) ∷ chunks size size [] cs
  | false ↦ chunks size (room - 1) (acc ++ c ∷ []) cs
]

-- The successive results of fgets(buf, size + 1, stream) on a file with this content, until it
-- returns NULL.
abbrev pub fgets_of : ℕ → Text → List Text
fgets_of size = chunks size size []

-- The same with a buffer of 256 bytes.
abbrev pub fgets_all : Text → List Text
fgets_all = fgets_of 255

join-chunks-from :
    (size : ℕ) (cs acc : Text) (room : ℕ) → join (chunks size room acc cs) ≡ acc ++ cs
unfolding chunks
join-chunks-from size [] [] room = refl
join-chunks-from size [] (a ∷ acc) room = refl
join-chunks-from size (c ∷ cs) acc room = elim (Bool-cases (c == b'\n' || room == 1)) [
  | inl e ↦ rw (e, chunks) (rw (join-chunks-from size cs [] size) (append_assoc acc (c ∷ []) cs))
  | inr e ↦
      rw (e, chunks)
        (join-chunks-from size cs (acc ++ c ∷ []) (room - 1) ∙ append_assoc acc (c ∷ []) cs)
]

-- The chunks put together are the file.
pub join-fgets_all : (content : Text) → join (fgets_all content) ≡ content
join-fgets_all content = join-chunks-from 255 content [] 255

chunks-line :
    (size : ℕ) (l acc rest : Text) (room : ℕ)
    → contains b'\n' l ≡ false
    → length l + 1 ≤ room
    → chunks size room acc (l ++ b'\n' ∷ rest)
      ≡ (acc ++ (l ++ b'\n' ∷ [])) ∷ chunks size size [] rest
unfolding chunks contains
chunks-line size [] acc rest room n h = refl
chunks-line size (c ∷ l) acc rest room n h = ground (
  arith,
  chunks-line size l (acc ++ c ∷ []) rest (room - 1),
  append_assoc acc (c ∷ []) (l ++ b'\n' ∷ []),
)

-- A line that leaves room for its newline is one chunk, its newline included.
pub fgets_of-line :
    (size : ℕ) (l rest : Text)
    → contains b'\n' l ≡ false
    → length l < size
    → fgets_of size (l ++ b'\n' ∷ rest) ≡ (l ++ b'\n' ∷ []) ∷ fgets_of size rest
fgets_of-line size l rest n h = chunks-line size l [] rest size n (omega arith)

pub fgets_all-line :
    (l rest : Text)
    → contains b'\n' l ≡ false
    → length l ≤ 254
    → fgets_all (l ++ b'\n' ∷ rest) ≡ (l ++ b'\n' ∷ []) ∷ fgets_all rest
fgets_all-line l rest n h = fgets_of-line 255 l rest n (omega arith)

chunks-last :
    (size : ℕ) (l acc : Text) (room : ℕ)
    → contains b'\n' l ≡ false
    → length l < room
    → chunks size room acc l ≡ last_chunk (acc ++ l)
unfolding chunks contains
chunks-last size [] acc room n h = rw (append-nil acc) refl
chunks-last size (c ∷ l) acc room n h =
    ground (arith, chunks-last size l (acc ++ c ∷ []) (room - 1), append_assoc acc (c ∷ []) l)

-- A text of at most 254 bytes without a newline is one chunk.
pub fgets_all-last :
    (c : ℕ) (l : Text)
    → contains b'\n' (c ∷ l) ≡ false
    → length l ≤ 253
    → fgets_all (c ∷ l) ≡ (c ∷ l) ∷ []
unfolding last_chunk
fgets_all-last c l n h = chunks-last 255 (c ∷ l) [] 255 n (omega arith)
