-- ===== src/Rules/Command/Bounds.antt =====
-- The commands and their sizes against `char cmd[256]`.
use closed_bsd.Base.{ℕ, ◌+◌, ◌≤◌, ◌<◌, ◌≡◌, [], ◌∷◌, ◌++◌, arith, length, length-append}
use closed_bsd.Fault.{ok, fault, overflow}
use closed_bsd.Rules.Command.{
  opening, tail_pieces, command, cmd_size, port_pieces, flow_pieces, ip_option, tcp_option,
  icmp_option, hosts, hosts_and_ports, nonempty,
}
use closed_bsd.Rules.Ruleset.{
  Action, allow, Proto, ip, tcp, udp, icmp, Flow, any, incoming, outgoing, Ruleset,
}
use closed_bsd.Text.Cat.{
  join, sizes, when, length-join, sizes-append, strcat_all-eq-ok, strcat_all-eq-overflow,
}
use closed_bsd.Text.{Text, codes}

-- The opening is one of ten literals.
length-opening : (p : Proto) (a : Action) {o : Text} → opening p a ≡ ok o → length o ≤ 33
unfolding opening
length-opening ip allow e = ground arith
length-opening _ _ e = ground arith

sizes-port_pieces : (p : Text) → sizes (port_pieces p) ≤ 1 + length p
sizes-port_pieces p = ground arith

sizes-flow_pieces :
    (f : Flow) (inward outward : Text)
    → length inward ≤ 5
    → length outward ≤ 5
    → sizes (flow_pieces f inward outward) ≤ 5
sizes-flow_pieces any i o h k = omega arith
sizes-flow_pieces incoming i o h k = omega arith
sizes-flow_pieces outgoing i o h k = omega arith

sizes-ip_option : (o : ℕ) → sizes (ip_option o) ≤ 15
sizes-ip_option o = ground arith

sizes-tcp_option : (o : ℕ) → sizes (tcp_option o) ≤ 12
sizes-tcp_option o = ground arith

sizes-icmp_option : (o : ℕ) → sizes (icmp_option o) ≤ 12
sizes-icmp_option o = ground arith

sizes-other : (s : Text) → sizes (when (nonempty s) (codes " " ∷ s ∷ [])) ≤ 1 + length s
sizes-other s = ground arith

-- Only IP rules write `other_a`.
abbrev pub other_size : Proto → Text → ℕ
other_size ip s = length s
other_size _ s = 0

abbrev pub host_size : Ruleset → ℕ
host_size r = length r.src + length r.dst + length r.src_port + length r.dst_port

-- What the texts that a rule writes take together.
abbrev pub text_size : Proto → Ruleset → ℕ
text_size p r = host_size r + other_size p r.other_a

sizes-hosts : (r : Ruleset) → sizes (hosts r) ≡ 9 + length r.src + length r.dst
sizes-hosts r = omega arith

sizes-hosts_and_ports :
    (r : Ruleset)
    → sizes (hosts_and_ports r)
      ≤ 11 + length r.src + length r.dst + length r.src_port + length r.dst_port
sizes-hosts_and_ports r = omega (
  arith,
  sizes-append (port_pieces r.src_port) (codes " to " ∷ r.dst ∷ port_pieces r.dst_port),
  sizes-port_pieces r.src_port,
  sizes-port_pieces r.dst_port,
)

sizes-hosts_and_ports-ge :
    (r : Ruleset) → 9 + length r.src + length r.dst ≤ sizes (hosts_and_ports r)
sizes-hosts_and_ports-ge r =
    omega
      (arith, sizes-append (port_pieces r.src_port) (codes " to " ∷ r.dst ∷ port_pieces r.dst_port))

sizes-tail_pieces : (p : Proto) (r : Ruleset) → sizes (tail_pieces p r) ≤ 30 + text_size p r
unfolding tail_pieces
sizes-tail_pieces ip r = omega (
  arith,
  sizes-append (hosts r) (
      flow_pieces r.ifs (codes " in") (codes " out")
      ++ (ip_option r.option ++ when (nonempty r.other_a) (codes " " ∷ r.other_a ∷ []))),
  sizes-append (flow_pieces r.ifs (codes " in") (codes " out"))
      (ip_option r.option ++ when (nonempty r.other_a) (codes " " ∷ r.other_a ∷ [])),
  sizes-append (ip_option r.option) (when (nonempty r.other_a) (codes " " ∷ r.other_a ∷ [])),
  sizes-flow_pieces r.ifs (codes " in") (codes " out"),
  sizes-ip_option r.option,
  sizes-other r.other_a,
  sizes-hosts r,
)
sizes-tail_pieces tcp r = omega (
  arith,
  sizes-append (hosts_and_ports r)
      (flow_pieces r.ifs (codes " in") (codes " out") ++ tcp_option r.option),
  sizes-append (flow_pieces r.ifs (codes " in") (codes " out")) (tcp_option r.option),
  sizes-flow_pieces r.ifs (codes " in") (codes " out"),
  sizes-tcp_option r.option,
  sizes-hosts_and_ports r,
)
sizes-tail_pieces udp r = omega (
  arith,
  sizes-append (hosts_and_ports r) (flow_pieces r.ifs (codes " in ") (codes " out ")),
  sizes-flow_pieces r.ifs (codes " in ") (codes " out "),
  sizes-hosts_and_ports r,
)
sizes-tail_pieces icmp r = omega (
  arith,
  sizes-append (hosts r) (flow_pieces r.ifs (codes " in") (codes " out") ++ icmp_option r.option),
  sizes-append (flow_pieces r.ifs (codes " in") (codes " out")) (icmp_option r.option),
  sizes-flow_pieces r.ifs (codes " in") (codes " out"),
  sizes-icmp_option r.option,
  sizes-hosts r,
)

-- The text that the buffer holds in the end.
abbrev pub assembled : Text → Ruleset → Text
assembled o r = o ++ join (tail_pieces r.proto r)

-- A rule whose texts take at most 192 bytes is assembled whole, within the 256 bytes of `cmd`.
pub command-fits :
    (r : Ruleset) {o : Text}
    → opening r.proto r.action ≡ ok o
    → text_size r.proto r ≤ 192
    → (command r ≡ ok (assembled o r)) × (length (assembled o r) < cmd_size)
unfolding command
command-fits r {o} e h =
    let fits : length o + length (join (tail_pieces r.proto r)) < cmd_size = omega (
      arith,
      length-opening r.proto r.action e,
      sizes-tail_pieces r.proto r,
      length-join (tail_pieces r.proto r),
    ) in
    (
      rw e (strcat_all-eq-ok cmd_size o (tail_pieces r.proto r) fits),
      omega (arith, fits, length-append o (join (tail_pieces r.proto r))),
    )

length-opening-ge : (p : Proto) (a : Action) {o : Text} → opening p a ≡ ok o → 26 ≤ length o
unfolding opening
length-opening-ge ip allow e = ground arith
length-opening-ge _ _ e = ground arith

sizes-tail_pieces-ge :
    (p : Proto) (r : Ruleset) → 9 + length r.src + length r.dst ≤ sizes (tail_pieces p r)
unfolding tail_pieces
sizes-tail_pieces-ge ip r = omega (
  arith,
  sizes-append (hosts r) (
      flow_pieces r.ifs (codes " in") (codes " out")
      ++ (ip_option r.option ++ when (nonempty r.other_a) (codes " " ∷ r.other_a ∷ []))),
  sizes-hosts r,
)
sizes-tail_pieces-ge tcp r = omega (
  arith,
  sizes-append (hosts_and_ports r)
      (flow_pieces r.ifs (codes " in") (codes " out") ++ tcp_option r.option),
  sizes-hosts_and_ports-ge r,
)
sizes-tail_pieces-ge udp r = omega (
  arith,
  sizes-append (hosts_and_ports r) (flow_pieces r.ifs (codes " in ") (codes " out ")),
  sizes-hosts_and_ports-ge r,
)
sizes-tail_pieces-ge icmp r = omega (
  arith,
  sizes-append (hosts r) (flow_pieces r.ifs (codes " in") (codes " out") ++ icmp_option r.option),
  sizes-hosts r,
)

-- A rule whose two addresses take 221 bytes or more, which their arrays of 128 bytes can hold,
-- writes past the end of `cmd`.
pub command-overflow :
    (r : Ruleset) {o : Text}
    → opening r.proto r.action ≡ ok o
    → 221 ≤ length r.src + length r.dst
    → command r ≡ fault overflow
unfolding command
command-overflow r {o} e h = rw e (
    strcat_all-eq-overflow cmd_size o (tail_pieces r.proto r)
      (omega (arith, length-opening r.proto r.action e))
      (omega (
        arith,
        length-opening-ge r.proto r.action e,
        sizes-tail_pieces-ge r.proto r,
        length-join (tail_pieces r.proto r),
      )))
