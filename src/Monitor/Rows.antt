-- ===== src/Monitor/Rows.antt =====
-- What the window of the monitor shows: the packets that open connections, and the ring of rows.
use closed_bsd.Base.{
  ◌*◌, ltb, ℕ, zero, suc, ◌+◌, ◌*◌, ◌%◌, ◌≤◌, ◌<◌, ◌≡◌, ◌≢◌, refl, ◌∙◌, ◌⊎◌, inl, inr, Bool, true,
  false, not, ◌&&◌, List, [], ◌∷◌, ◌++◌, append-nil, arith, leb, ◌==◌, if◌then◌else◌, length,
  length-append, some, get_elem?, eq_of_some, ==_refl,
}
use closed_bsd.Monitor.{decimal, get_date, Packet, Event, Monitor, Time, set_row, next_y}
use closed_bsd.Text.{Text, codes, starts_with}

-- The packet behind its link header.
abbrev pub payload : ℕ → Packet → ℕ → ℕ
payload zdlt_len p i = p.bytes (zdlt_len + i)

-- The length of the IP header.
abbrev pub header_len : (ℕ → ℕ) → ℕ
header_len ip = ip 0 % 16 * 4

-- A packet is too short to be looked at, or not TCP, or it holds its two headers. It is no longer than
-- the buffer, and the memory behind it may be read as far as its link header is long.
pub data IsReadable (zdlt_len : ℕ) (p : Packet) : Type 0 where
  short : p.len < zdlt_len + 40 → IsReadable zdlt_len p
  other :
      p.len ≤ 4096
      → zdlt_len + p.len ≤ p.readable
      → payload zdlt_len p 9 ≢ 6
      → IsReadable zdlt_len p
  segment :
      p.len ≤ 4096
      → zdlt_len + p.len ≤ p.readable
      → 20 ≤ header_len (payload zdlt_len p)
      → zdlt_len + header_len (payload zdlt_len p) + 20 ≤ p.len
      → IsReadable zdlt_len p

-- SYN is set, and ACK is not.
abbrev pub asks_to_open : ℕ → Bool
asks_to_open flags = leb 2 (flags % 4) && ltb (flags % 32) 16

-- A TCP packet whose fragment offset and reserved bit are 0, with SYN and not ACK.
abbrev pub opens : (ℕ → ℕ) → Bool
opens ip =
    ip 9 == 6
    && ((ltb (ip 6) 128 && (ip 6 % 32 == 0 && ip 7 == 0)) && asks_to_open (ip (header_len ip + 13)))

-- An address as four decimal numbers.
abbrev pub dotted : List ℕ → Text
dotted [] = []
dotted (b ∷ []) = decimal 3 b
dotted (b ∷ c ∷ bs) = decimal 3 b ++ (codes "." ++ dotted (c ∷ bs))

abbrev pub address : (ℕ → ℕ) → ℕ → Text
address ip at = dotted (ip at ∷ ip (at + 1) ∷ ip (at + 2) ∷ ip (at + 3) ∷ [])

abbrev pub port : (ℕ → ℕ) → ℕ → Text
port ip at = decimal 5 (ip at * 256 + ip (at + 1))

-- "DATE : SOURCE:PORT -> DESTINATION:PORT", with the addresses and ports of the headers.
abbrev pub line : Time → (ℕ → ℕ) → ℕ → Text
line t ip tcp =
    get_date t
    ++ (codes " : "
        ++ (address ip 12
            ++ (codes ":"
                ++ (port ip tcp
                    ++ (codes " -> " ++ (address ip 16 ++ (codes ":" ++ port ip (tcp + 2))))))))

-- The connection that a packet opens, where no key is pressed.
abbrev pub connection : ℕ → Event → List Text
connection zdlt_len e =
    let ip = payload zdlt_len e.packet in
    if not e.pressed && (leb (zdlt_len + 40) e.packet.len && opens ip)
    then line e.time ip (header_len ip) ∷ []
    else []

abbrev pub connections : ℕ → List Event → List Text
connections zdlt_len [] = []
connections zdlt_len (e ∷ es) = connection zdlt_len e ++ connections zdlt_len es

-- The last ten connections of a list stand on the rows 10 to 19, each at the front of its row, with
-- anything behind it, where the first was written on the row `10 + first % 10`.
pub record Shows (first : ℕ) (all : List Text) (m : Monitor) : Type 0 where
  pub next_row : m.y ≡ 10 + (first + length all) % 10
  pub recent :
      (i : ℕ) (s : Text)
      → get_elem? all i ≡ some s
      → length all ≤ i + 10
      → starts_with s (m.rows (10 + (first + i) % 10)) ≡ true

-- What a packet does to the window.
pub data Follows (m m' : Monitor) : List Text → Type 0 where
  nothing : m'.y ≡ m.y → m'.rows ≡ m.rows → Follows m m' []
  shown :
      (s rest : Text)
      → m'.y ≡ next_y m.y
      → m'.rows ≡ set_row m.rows m.y (s ++ rest)
      → Follows m m' (s ∷ [])

starts_with-append : (s t : Text) → starts_with s (s ++ t) ≡ true
unfolding starts_with
starts_with-append [] t = refl
starts_with-append (c ∷ cs) t = ground (arith, starts_with-append cs t)

get_elem?-length :
    {A : Type 0} (xs : List A) (x y : A) → get_elem? (xs ++ x ∷ []) (length xs) ≡ some y → x ≡ y
get_elem?-length [] x y e = eq_of_some e
get_elem?-length (z ∷ xs) x y e = get_elem?-length xs x y e

get_elem?-append :
    {A : Type 0} (xs : List A) (x y : A) (i : ℕ)
    → get_elem? (xs ++ x ∷ []) i ≡ some y
    → ((i ≡ length xs) × (x ≡ y)) ⊎ ((i < length xs) × (get_elem? xs i ≡ some y))
get_elem?-append [] x y zero e = inl (refl, eq_of_some e)
get_elem?-append [] x y (suc i) e = cc
get_elem?-append (z ∷ xs) x y zero e = inr (omega arith, e)
get_elem?-append (z ∷ xs) x y (suc i) e = elim (get_elem?-append xs x y i e) [
  | inl (a, b) ↦ inl (omega arith, b)
  | inr (a, b) ↦ inr (omega arith, b)
]

-- The next row, counted from the start.
next_y-mod : (k : ℕ) → next_y (10 + k % 10) ≡ 10 + (k + 1) % 10
next_y-mod k = ground arith

row-apart : (k i n : ℕ) → i < n → n ≤ i + 9 → ((10 + (k + i) % 10) == (10 + (k + n) % 10)) ≡ false
row-apart k i n a b = ground arith

pub Follows-Shows :
    (first : ℕ) (all cs : List Text) (m m' : Monitor)
    → Shows first all m
    → Follows m m' cs
    → Shows first (all ++ cs) m'
Follows-Shows first all cs m m' before (nothing y rows) = rw (append-nil all) (record {
  next_row = y ∙ before.next_row;
  recent = λ i s e near. rw (rows) (before.recent i s e near);
})
Follows-Shows first all cs m m' before (shown line rest y rows) = record {
  next_row =
      rw (y, before.next_row, next_y-mod (first + length all), length-append all (line ∷ []))
        (omega arith);
  recent = λ i s e near.
      let near' : length all ≤ i + 9 = omega (arith, length-append all (line ∷ [])) in
      elim (get_elem?-append all line s i e) [
        | inl (a, b) ↦
            rw (rows, before.next_row, a, ← b, ==_refl (10 + (first + length all) % 10))
              (starts_with-append line rest)
        | inr (a, b) ↦
            rw (rows, before.next_row, row-apart first i (length all) a near')
              (before.recent i s b (omega arith))
      ];
}
