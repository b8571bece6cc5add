-- ===== src/Monitor/Lines.antt =====
-- The line that `log_syn` prints is the line of the connection, and nothing of it is cut off.
use closed_bsd.Base.{
  ℕ, zero, suc, ◌+◌, ◌*◌, ◌/◌, ◌%◌, ◌≤◌, ◌≡◌, refl, [], ◌∷◌, ◌++◌, append_assoc, arith, ltb, ◌==◌,
  ◌&&◌, length, length-append, take-eq_of_le,
}
use closed_bsd.Monitor.{
  Time, decimal, month_name, get_date, two_digits, hostlookup, source_text, target_text, nuked,
  ip_off, is_syn,
}
use closed_bsd.Monitor.Rows.{address, port, asks_to_open, line}
use closed_bsd.Text.{Text, codes}

abbrev pub printed : Time → (ℕ → ℕ) → ℕ → Text
printed t ip tcp = source_text t ip tcp ++ target_text ip tcp

pub first_fragment :
    (ip : ℕ → ℕ) → (ip_off (nuked ip) == 0) ≡ (ltb (ip 6) 128 && (ip 6 % 32 == 0 && ip 7 == 0))
first_fragment ip = ground arith

pub is_syn-asks_to_open : (flags : ℕ) → is_syn flags ≡ asks_to_open flags
is_syn-asks_to_open flags = ground arith

length-decimal : (width n : ℕ) → length (decimal width n) ≤ width
unfolding decimal
length-decimal zero n = omega arith
length-decimal (suc width) n =
    let short = length-decimal width (n / 10) in
    let grown = length-append (decimal width (n / 10)) ((b'0' + n % 10) ∷ []) in
    ground (arith, short, grown)

length-month_name : (n : ℕ) → length (month_name n) ≡ 3
length-month_name n = ground arith

length-hostlookup : (buf : ℕ → ℕ) (at : ℕ) → length (hostlookup buf at) ≤ 15
unfolding hostlookup
length-hostlookup buf at =
    let a = length-decimal 3 (buf at) in
    let b = length-decimal 3 (buf (at + 1)) in
    let c = length-decimal 3 (buf (at + 2)) in
    let d = length-decimal 3 (buf (at + 3)) in simp length-append (omega arith)

length-get_date : (t : Time) → length (get_date t) ≤ 12
unfolding get_date
length-get_date t = omega (
  arith,
  length-append (month_name t.month) (
      codes " "
      ++ (two_digits t.day
          ++ (codes " " ++ (two_digits t.hour ++ (codes ":" ++ two_digits t.minute))))),
  length-month_name t.month,
)

-- The front of the line, up to the arrow, in pieces of at most 12, 15 and 5 bytes.
length-front :
    (date host port : Text)
    → length date ≤ 12
    → length host ≤ 15
    → length port ≤ 5
    → length (date ++ (codes " : " ++ (host ++ (codes ":" ++ (port ++ codes " -> "))))) ≤ 79
length-front date host port a b c = omega (
  arith,
  length-append date (codes " : " ++ (host ++ (codes ":" ++ (port ++ codes " -> ")))),
  length-append host (codes ":" ++ (port ++ codes " -> ")),
  length-append port (codes " -> "),
)

source_text-uncut :
    (t : Time) (ip : ℕ → ℕ) (tcp : ℕ)
    → source_text t ip tcp
      ≡ get_date t
        ++ (codes " : " ++ (hostlookup ip 12 ++ (codes ":" ++ (port ip tcp ++ codes " -> "))))
unfolding source_text
source_text-uncut t ip tcp =
    let host = hostlookup ip 12 in
    let front =
      get_date t ++ (codes " : " ++ (host ++ (codes ":" ++ (port ip tcp ++ codes " -> ")))) in
    let short : length front ≤ 79 =
      length-front (get_date t) host (port ip tcp) (length-get_date t) (length-hostlookup ip 12)
        (length-decimal 5 (ip tcp * 256 + ip (tcp + 1))) in
    rw (take-eq_of_le 15 host (length-hostlookup ip 12)) (take-eq_of_le 79 front short)

target_text-uncut :
    (ip : ℕ → ℕ) (tcp : ℕ)
    → target_text ip tcp ≡ hostlookup ip 16 ++ (codes ":" ++ port ip (tcp + 2))
unfolding target_text
target_text-uncut ip tcp =
    rw (take-eq_of_le 25 (hostlookup ip 16) (omega (arith, length-hostlookup ip 16))) refl

hostlookup-address : (ip : ℕ → ℕ) (at : ℕ) → hostlookup ip at ≡ address ip at
unfolding hostlookup
hostlookup-address ip at = refl

-- Three pieces of a line, and what stands behind them.
regrouped :
    (date host port rest : Text)
    → (date ++ (codes " : " ++ (host ++ (codes ":" ++ (port ++ codes " -> "))))) ++ rest
      ≡ date ++ (codes " : " ++ (host ++ (codes ":" ++ (port ++ (codes " -> " ++ rest)))))
regrouped date host port rest = simp append_assoc

pub printed-line : (t : Time) (ip : ℕ → ℕ) (tcp : ℕ) → printed t ip tcp ≡ line t ip tcp
printed-line t ip tcp =
    rw
      (
        source_text-uncut t ip tcp,
        target_text-uncut ip tcp,
        hostlookup-address ip 12,
        hostlookup-address ip 16,
      )
      (regrouped (get_date t) (address ip 12) (port ip tcp)
        (address ip 16 ++ (codes ":" ++ port ip (tcp + 2))))
