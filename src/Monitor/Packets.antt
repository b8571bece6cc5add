-- ===== src/Monitor/Packets.antt =====
-- What `filter_packet` makes of a packet: nothing, or one line on the next row.
use closed_bsd.Base.{
  ℕ, ◌+◌, ◌≤◌, ◌<◌, ◌≡◌, ◌≢◌, refl, ◌⊎◌, inl, inr, true, false, ◌&&◌, List, [], ◌∷◌, ◌++◌,
  append_assoc, arith, leb, ltb, ◌==◌, if◌then◌else◌, length, Bool-cases,
}
use closed_bsd.Fault.{ok}
use closed_bsd.Monitor.{
  Packet, Event, Monitor, Time, hostlookup, source_text, target_text, printed_over, drop, set_row,
  log_syn, copied, tcp_at, nuked, ip_off, is_syn, logged, wiped, filter_tcp, filter_copy,
  filter_packet,
}
use closed_bsd.Text.{Text}
use closed_bsd.Monitor.Lines.{printed, printed-line, first_fragment, is_syn-asks_to_open}
use closed_bsd.Monitor.Rows.{payload, header_len, opens, connection, Follows, nothing, shown, line}

tcp_at-header_len : (buf : ℕ → ℕ) → 20 ≤ header_len buf → tcp_at buf ≡ header_len buf
tcp_at-header_len buf h = omega arith

-- Two buffers with the same bytes from 8 up to a bound.
abbrev Same : ℕ → (ℕ → ℕ) → (ℕ → ℕ) → Type 0
Same n a b = (i : ℕ) → 8 ≤ i → i < n → a i ≡ b i

hostlookup-Same :
    (n at : ℕ) (a b : ℕ → ℕ) → Same n a b → 8 ≤ at → at + 4 ≤ n → hostlookup a at ≡ hostlookup b at
unfolding hostlookup
hostlookup-Same n at a b same h k =
    rw
      (
        same at h (omega arith),
        same (at + 1) (omega arith) (omega arith),
        same (at + 2) (omega arith) (omega arith),
        same (at + 3) (omega arith) (omega arith),
      )
      refl

source_text-Same :
    (t : Time) (n tcp : ℕ) (a b : ℕ → ℕ)
    → Same n a b
    → 20 ≤ tcp
    → tcp + 4 ≤ n
    → source_text t a tcp ≡ source_text t b tcp
unfolding source_text
source_text-Same t n tcp a b same h k =
    rw
      (
        hostlookup-Same n 12 a b same (omega arith) (omega arith),
        same tcp (omega arith) (omega arith),
        same (tcp + 1) (omega arith) (omega arith),
      )
      refl

target_text-Same :
    (n tcp : ℕ) (a b : ℕ → ℕ)
    → Same n a b
    → 20 ≤ tcp
    → tcp + 4 ≤ n
    → target_text a tcp ≡ target_text b tcp
unfolding target_text
target_text-Same n tcp a b same h k =
    rw
      (
        hostlookup-Same n 16 a b same (omega arith) (omega arith),
        same (tcp + 2) (omega arith) (omega arith),
        same (tcp + 2 + 1) (omega arith) (omega arith),
      )
      refl

log_syn-line :
    (t : Time) (n tcp : ℕ) (ip : ℕ → ℕ) (m : Monitor)
    → Same n m.align_buf ip
    → 20 ≤ tcp
    → tcp + 4 ≤ n
    → (rest : Text) × ((log_syn t tcp m).rows ≡ set_row m.rows m.y (printed t ip tcp ++ rest))
unfolding log_syn printed_over
log_syn-line t n tcp ip m same h k =
    let source = source_text t ip tcp in
    let target = target_text ip tcp in
    (
      drop (length source + length target) (m.rows m.y),
      rw
          (
            source_text-Same t n tcp m.align_buf ip same h k,
            target_text-Same n tcp m.align_buf ip same h k,
            append_assoc source target (drop (length source + length target) (m.rows m.y)),
          )
          refl,
    )

logged-Follows :
    (t : Time) (n tcp : ℕ) (ip : ℕ → ℕ) (m : Monitor)
    → Same n m.align_buf ip
    → 20 ≤ tcp
    → tcp + 14 ≤ n
    → Follows m
        (wiped tcp (logged t tcp m))
        (if is_syn (ip (tcp + 13)) then printed t ip tcp ∷ [] else [])
logged-Follows t n tcp ip m same h k = elim (Bool-cases (is_syn (ip (tcp + 13)))) [
  | inl e ↦
      let (rest, rows) = log_syn-line t n tcp ip m same h (omega arith) in
      rw (same (tcp + 13) (omega arith) (omega arith), e) (shown (printed t ip tcp) rest refl rows)
  | inr e ↦ rw (same (tcp + 13) (omega arith) (omega arith), e) (nothing refl refl)
]

-- A TCP packet with both its headers in the buffer.
filter_tcp-Follows :
    (t : Time) (n tcp : ℕ) (ip : ℕ → ℕ) (m : Monitor)
    → Same n m.align_buf ip
    → m.align_buf 6 ≡ nuked ip 6
    → m.align_buf 7 ≡ ip 7
    → 20 ≤ tcp
    → tcp + 14 ≤ n
    → n ≤ 4096
    → (m' : Monitor) × (filter_tcp t tcp m ≡ ok m')
      × Follows m m'
          (if ip_off (nuked ip) == 0 && is_syn (ip (tcp + 13)) then printed t ip tcp ∷ [] else [])
unfolding filter_tcp
filter_tcp-Follows t n tcp ip m same six seven h k fits =
    elim (Bool-cases (ip_off (nuked ip) == 0)) [
      | inl e ↦
          rw (six, seven, e, filter_tcp)
            (wiped tcp (logged t tcp m), ground arith, logged-Follows t n tcp ip m same h k)
      | inr e ↦ rw (six, seven, e, filter_tcp) (m, refl, nothing refl refl)
    ]

pub Follows_copied :
    {cs : List Text} (m m' : Monitor) (buf : ℕ → ℕ)
    → Follows (record m { align_buf = buf }) m' cs
    → Follows m m' cs
Follows_copied m m' buf (nothing y rows) = nothing y rows
Follows_copied m m' buf (shown s rest y rows) = shown s rest y rows

nuked-Same : (n : ℕ) (a b : ℕ → ℕ) → ((i : ℕ) → i < n → a i ≡ b i) → Same n (nuked a) b
nuked-Same n a b same i h k = rw (same i k) (ground arith)

pub filter_copy-Follows :
    (t : Time) (n : ℕ) (ip : ℕ → ℕ) (m : Monitor)
    → ((i : ℕ) → i < n → m.align_buf i ≡ ip i)
    → n ≤ 4096
    → 20 ≤ header_len ip
    → header_len ip + 20 ≤ n
    → (m' : Monitor) × (filter_copy t m ≡ ok m')
      × Follows m m' (if opens ip then line t ip (header_len ip) ∷ [] else [])
unfolding filter_copy
filter_copy-Follows t n ip m same fits h k = elim (Bool-cases (ip 9 == 6)) [
  | inr e ↦ rw (same 9 (omega arith), e, filter_copy) (m, refl, nothing refl refl)
  | inl e ↦
      let at : tcp_at m.align_buf ≡ header_len ip =
        rw (same 0 (omega arith)) (tcp_at-header_len ip h) in
      rw (same 9 (omega arith), e, at, filter_copy)
        (let (m', came, follows) =
            filter_tcp-Follows t n (header_len ip) ip (record m { align_buf = nuked m.align_buf })
              (nuked-Same n m.align_buf ip same) (rw (same 6 (omega arith)) refl)
              (same 7 (omega arith)) h (omega arith) fits in
          (
            m',
            came,
            Follows_copied m m' (nuked m.align_buf) (
                rw
                  (
                    first_fragment ip,
                    is_syn-asks_to_open (ip (header_len ip + 13)),
                    printed-line t ip (header_len ip),
                  )
                  at follows),
          ))
]

-- A packet that is not TCP.
pub filter_copy-other : (t : Time) (m : Monitor) → m.align_buf 9 ≢ 6 → filter_copy t m ≡ ok m
unfolding filter_copy
filter_copy-other t m h = ground arith

pub opens-other : (ip : ℕ → ℕ) → ip 9 ≢ 6 → opens ip ≡ false
opens-other ip h = ground arith

-- A packet that is dropped before it is copied.
pub filter_packet-dropped :
    (zdlt_len : ℕ) (e : Event) (m : Monitor)
    → (e.pressed ≡ true) ⊎ (e.packet.len < zdlt_len + 40)
    → (m' : Monitor) × (filter_packet zdlt_len e m ≡ ok m') × Follows m m' (connection zdlt_len e)
unfolding filter_packet
filter_packet-dropped zdlt_len e m (inl h) =
    rw (h, filter_packet) (record m { clears = m.clears + 1 }, refl, nothing refl refl)
filter_packet-dropped zdlt_len e m (inr h) = elim (Bool-cases e.pressed) [
  | inl p ↦ rw (p, filter_packet) (record m { clears = m.clears + 1 }, refl, nothing refl refl)
  | inr p ↦
      let test : ltb e.packet.len (zdlt_len + 20 + 20) ≡ true = ground arith in
      let long : leb (zdlt_len + 40) e.packet.len ≡ false = ground arith in
      rw (p, test, long, filter_packet) (m, refl, nothing refl refl)
]

-- A packet that is copied.
pub filter_packet-copied :
    (zdlt_len : ℕ) (e : Event) (m : Monitor)
    → e.pressed ≡ false
    → zdlt_len + 40 ≤ e.packet.len
    → e.packet.len ≤ 4096
    → zdlt_len + e.packet.len ≤ e.packet.readable
    → filter_packet zdlt_len e m
      ≡ filter_copy e.time (record m { align_buf = copied zdlt_len e.packet m.align_buf })
unfolding filter_packet
filter_packet-copied zdlt_len e m p h k r = ground arith

pub copied-payload :
    (zdlt_len : ℕ) (p : Packet) (old : ℕ → ℕ) (i : ℕ)
    → i < p.len
    → copied zdlt_len p old i ≡ payload zdlt_len p i
copied-payload zdlt_len p old i h = ground arith

pub sent :
    (zdlt_len : ℕ) (e : Event)
    → ((e.pressed ≡ true) ⊎ (e.packet.len < zdlt_len + 40))
      ⊎ ((e.pressed ≡ false) × (zdlt_len + 40 ≤ e.packet.len))
sent zdlt_len e = elim (Bool-cases e.pressed) [
  | inl p ↦ inl (inl p)
  | inr p ↦ elim (Bool-cases (ltb e.packet.len (zdlt_len + 40))) [
    | inl l ↦ inl (inr (ground arith))
    | inr l ↦ inr (p, ground arith)
  ]
]

pub connection-copied :
    (zdlt_len : ℕ) (e : Event)
    → e.pressed ≡ false
    → zdlt_len + 40 ≤ e.packet.len
    → connection zdlt_len e ≡ (
        let ip = payload zdlt_len e.packet in
        if opens ip then line e.time ip (header_len ip) ∷ [] else [])
connection-copied zdlt_len e p h =
    let long : leb (zdlt_len + 40) e.packet.len ≡ true = ground arith in rw (p, long) refl
