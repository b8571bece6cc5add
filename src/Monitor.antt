-- ===== src/Monitor.antt =====
-- The monitor of connections (closedbsd/config/mon.c): `filter_packet`, which pcap calls with each
-- packet, `log_syn`, and the loop of `mon` over them.
pub mod Rows
mod Lines
pub mod Packets
pub mod Recent
mod Examples
use closed_bsd.Base.{
  ℕ, zero, suc, ◌+◌, ◌-◌, ◌*◌, ◌/◌, ◌%◌, Bool, true, false, not, ◌&&◌, ◌||◌, List, [], ◌∷◌, ◌++◌,
  leb, ltb, ◌==◌, if◌then◌else◌, length, take, Option, none, some,
}
use closed_bsd.Fault.{Result, ok, fault, overflow, uninitialised, ◌>>=◌}
use closed_bsd.Text.{Text, codes, snprintf}

-- struct pcap_pkthdr's `len`, the bytes of memory from `packet` on, and how many of them may be read.
pub record Packet : Type 0 where
  pub len : ℕ
  pub bytes : ℕ → ℕ
  pub readable : ℕ

-- localtime(&timer)
pub record Time : Type 0 where
  pub month : ℕ
  pub day : ℕ
  pub hour : ℕ
  pub minute : ℕ

-- The next row, the texts of the rows from column 2 on, the 4096 bytes of `align_buf`, and how often
-- dialog_clear was called.
pub record Monitor : Type 0 where
  pub y : ℕ
  pub rows : ℕ → Text
  pub align_buf : ℕ → ℕ
  pub clears : ℕ

-- "%u", of a number of at most `width` digits.
unfoldable pub decimal : ℕ → ℕ → Text
decimal zero n = []
decimal (suc width) n =
    let front = decimal width (n / 10) in
    if ltb n 10 then (b'0' + n) ∷ [] else front ++ (b'0' + n % 10) ∷ []

-- "%02d" of a number below 100.
abbrev pub two_digits : ℕ → Text
two_digits n = (b'0' + n / 10) ∷ (b'0' + n % 10) ∷ []

-- months[timeptr->tm_mon], which localtime keeps below 12.
abbrev pub month_name : ℕ → Text
month_name n =
    if n == 0
    then codes "Jan"
    else if n == 1
    then codes "Feb"
    else if n == 2
    then codes "Mar"
    else if n == 3
    then codes "Apr"
    else if n == 4
    then codes "May"
    else if n == 5
    then codes "Jun"
    else if n == 6
    then codes "Jul"
    else if n == 7
    then codes "Aug"
    else if n == 8
    then codes "Sep"
    else if n == 9
    then codes "Oct"
    else if n == 10
    then codes "Nov"
    else codes "Dec"

unfoldable pub get_date : Time → Text
get_date t =
    month_name t.month
    ++ (codes " "
        ++ (two_digits t.day
            ++ (codes " " ++ (two_digits t.hour ++ (codes ":" ++ two_digits t.minute)))))

-- `hostlookup`, which never resolves: inet_ntoa of the four bytes.
unfoldable pub hostlookup : (ℕ → ℕ) → ℕ → Text
unfolding decimal
hostlookup buf at =
    decimal 3 (buf at)
    ++ (codes "."
        ++ (decimal 3 (buf (at + 1))
            ++ (codes "."
                ++ (decimal 3 (buf (at + 2)) ++ (codes "." ++ decimal 3 (buf (at + 3)))))))

-- ntohs of the two bytes.
abbrev pub ntohs : (ℕ → ℕ) → ℕ → ℕ
ntohs buf at = buf at * 256 + buf (at + 1)

-- The two texts of `log_syn`: the date and the source, and the destination.
unfoldable pub source_text : Time → (ℕ → ℕ) → ℕ → Text
unfolding get_date hostlookup decimal
source_text t buf tcp = snprintf 80 (
    get_date t
    ++ (codes " : "
        ++ (take 15 (hostlookup buf 12)
            ++ (codes ":" ++ (decimal 5 (ntohs buf tcp) ++ codes " -> ")))))

unfoldable pub target_text : (ℕ → ℕ) → ℕ → Text
unfolding hostlookup decimal
target_text buf tcp = take 25 (hostlookup buf 16) ++ (codes ":" ++ decimal 5 (ntohs buf (tcp + 2)))

unfoldable pub drop : ℕ → Text → Text
drop zero s = s
drop (suc n) [] = []
drop (suc n) (c ∷ cs) = drop n cs

-- Two mvwprintw, one behind the other, on a row: what stood further right stays.
unfoldable pub printed_over : Text → Text → Text → Text
unfolding drop
printed_over old first second = first ++ (second ++ drop (length first + length second) old)

abbrev pub set_row : (ℕ → Text) → ℕ → Text → ℕ → Text
set_row rows y s i = if i == y then s else rows i

-- `log_syn` on the row `y`.
unfoldable pub log_syn : Time → ℕ → Monitor → Monitor
unfolding printed_over source_text target_text
log_syn t tcp m = record m {
  rows =
      set_row m.rows m.y
        (printed_over (m.rows m.y) (source_text t m.align_buf tcp) (target_text m.align_buf tcp));
}

-- bcopy(ip, align_buf, p->len), where `ip` lies behind the link header.
abbrev pub copied : ℕ → Packet → (ℕ → ℕ) → ℕ → ℕ
copied zdlt_len p old i = if ltb i p.len then p.bytes (zdlt_len + i) else old i

-- packet + IP_SIZE + ip_options, with the arithmetic of an unsigned short.
abbrev pub tcp_at : (ℕ → ℕ) → ℕ
tcp_at buf = 20 + (65536 + buf 0 % 16 - 5) % 65536 * 4 % 65536

-- ip->ip_off &= 0xFF9F, in the order of the machine: the offset without its flags DF and MF.
abbrev pub nuked : (ℕ → ℕ) → ℕ → ℕ
nuked buf i = if i == 6 then buf 6 / 128 * 128 + buf 6 % 32 else buf i

abbrev pub ip_off : (ℕ → ℕ) → ℕ
ip_off buf = buf 6 + buf 7 * 256

-- (tcp->th_flags & TH_SYN) && !(tcp->th_flags & TH_ACK)
abbrev pub is_syn : ℕ → Bool
is_syn flags = flags / 2 % 2 == 1 && not (flags / 16 % 2 == 1)

-- bzero(ip, sizeof(ip)): the size of a pointer.
abbrev pub bzero : ℕ → (ℕ → ℕ) → ℕ → ℕ
bzero at buf i = if leb at i && ltb i (at + 4) then 0 else buf i

abbrev pub next_y : ℕ → ℕ
next_y y = if ltb y 19 then y + 1 else 10

-- The end of `filter_packet`.
abbrev pub logged : Time → ℕ → Monitor → Monitor
logged t tcp m =
    let shown = log_syn t tcp m in
    if is_syn (m.align_buf (tcp + 13)) then record shown { y = next_y m.y } else m

abbrev pub wiped : ℕ → Monitor → Monitor
wiped tcp m = record m { align_buf = bzero tcp (bzero 0 m.align_buf) }

-- `filter_packet` behind its copy, for a TCP packet without its flags DF and MF.
unfoldable pub filter_tcp : Time → ℕ → Monitor → Result Monitor
unfolding log_syn
filter_tcp t tcp m =
    if not (ip_off m.align_buf == 0)
    then ok m
    else if ltb 4096 (tcp + 14)
    then fault overflow
    else ok (wiped tcp (logged t tcp m))

unfoldable pub filter_copy : Time → Monitor → Result Monitor
unfolding filter_tcp
filter_copy t m =
    if not (m.align_buf 9 == 6)
    then ok m
    else filter_tcp t (tcp_at m.align_buf) (record m { align_buf = nuked m.align_buf })

-- A key, the time and the packet of one call.
pub record Event : Type 0 where
  pub pressed : Bool
  pub time : Time
  pub packet : Packet

-- `filter_packet`: a key that is pressed clears the screen and drops the packet. The copy reads as
-- many bytes from behind the link header as the packet has with it.
unfoldable pub filter_packet : ℕ → Event → Monitor → Result Monitor
unfolding filter_copy
filter_packet zdlt_len e m =
    if e.pressed
    then ok (record m { clears = m.clears + 1 })
    else if ltb e.packet.len (zdlt_len + 20 + 20)
    then ok m
    else if ltb 4096 e.packet.len
    then fault overflow
    else if ltb e.packet.readable (zdlt_len + e.packet.len)
    then fault uninitialised
    else filter_copy e.time (record m { align_buf = copied zdlt_len e.packet m.align_buf })

-- The loop of `mon`, up to a key between two packets.
unfoldable pub watch : ℕ → List Event → Monitor → Result Monitor
unfolding filter_packet
watch zdlt_len [] m = ok m
watch zdlt_len (e ∷ es) m = filter_packet zdlt_len e m >>= λ m'. watch zdlt_len es m'
