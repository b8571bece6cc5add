-- ===== src/Rules/Command.antt =====
-- The ipfw command that `__insert_rule` writes into `char cmd[256]`.
pub mod Bounds
pub mod FwdBounds
pub mod Grammar
pub mod Words
pub mod Forward
use closed_bsd.Base.{
  ℕ, ◌+◌, ◌<◌, Bool, not, true, false, List, [], ◌∷◌, ◌++◌, ltb, ◌==◌, if◌then◌else◌, length,
}
use closed_bsd.Fault.{Result, ok, fault, uninitialised, ◌>>=◌}
use closed_bsd.Rules.Ruleset.{
  Action, allow, deny, divert, fwd, reset, Proto, ip, tcp, udp, icmp, Flow, any, incoming, outgoing,
  setup, established, frag, ssrr, lsrr, ts, echo_reply, dest_unreach, echo_request, Ruleset,
}
use closed_bsd.Text.Cat.{strcat_all, when}
use closed_bsd.Text.{Text, codes, snprintf, starts_with}

abbrev pub cmd_size : ℕ
cmd_size = 256

-- The switch on the action inside the switch on the protocol. Where no case applies, `cmd` is
-- left as the stack held it.
unfoldable pub opening : Proto → Action → Result Text
opening ip allow = ok (codes "/sbin/ipfw -q add allow ip ")
opening ip deny = ok (codes "/sbin/ipfw -q add deny ip ")
opening ip divert = ok (codes "/sbin/ipfw -q add divert 8668 ip ")
opening tcp allow = ok (codes "/sbin/ipfw -q add allow tcp ")
opening tcp reset = ok (codes "/sbin/ipfw -q add reset tcp ")
opening tcp deny = ok (codes "/sbin/ipfw -q add deny tcp ")
opening udp allow = ok (codes "/sbin/ipfw -q add allow udp ")
opening udp deny = ok (codes "/sbin/ipfw -q add deny udp ")
opening icmp allow = ok (codes "/sbin/ipfw -q add allow icmp ")
opening icmp deny = ok (codes "/sbin/ipfw -q add deny icmp ")
opening _ _ = fault uninitialised

abbrev nonempty : Text → Bool
nonempty s = ltb 0 (length s)

-- if (strlen(port) > 0) { strcat(cmd, " "); strcat(cmd, port); }
abbrev port_pieces : Text → List Text
port_pieces p = when (nonempty p) (codes " " ∷ p ∷ [])

-- if (rule.ifs == INCOMING) … if (rule.ifs == OUTGOING) …
abbrev flow_pieces : Flow → Text → Text → List Text
flow_pieces any inward outward = []
flow_pieces incoming inward outward = inward ∷ []
flow_pieces outgoing inward outward = outward ∷ []

abbrev ip_option : ℕ → List Text
ip_option o =
    if o == ssrr
    then codes " ipoptions ssrr" ∷ []
    else if o == lsrr
    then codes " ipoptions lsrr" ∷ []
    else if o == ts
    then codes " ipoptions ts" ∷ []
    else []

abbrev tcp_option : ℕ → List Text
tcp_option o =
    if o == setup
    then codes " setup" ∷ []
    else if o == established
    then codes " established" ∷ []
    else if o == frag
    then codes " frag" ∷ []
    else []

abbrev icmp_option : ℕ → List Text
icmp_option o =
    if o == echo_request
    then codes " icmptypes 5" ∷ []
    else if o == dest_unreach
    then codes " icmptypes 3" ∷ []
    else if o == echo_reply
    then codes " icmptypes 0" ∷ []
    else []

-- "from SRC to DST" of IP and ICMP rules, which have no ports.
abbrev hosts : Ruleset → List Text
hosts r = codes "from " ∷ r.src ∷ codes " to " ∷ r.dst ∷ []

-- "from SRC PORT to DST PORT" of TCP and UDP rules.
abbrev hosts_and_ports : Ruleset → List Text
hosts_and_ports r =
    codes "from "
    ∷ r.src
    ∷ (port_pieces r.src_port ++ (codes " to " ∷ r.dst ∷ port_pieces r.dst_port))

-- What the case of each protocol appends to `cmd` by strcat, in order.
unfoldable pub tail_pieces : Proto → Ruleset → List Text
tail_pieces ip r =
    hosts r
    ++ (flow_pieces r.ifs (codes " in") (codes " out")
        ++ (ip_option r.option ++ when (nonempty r.other_a) (codes " " ∷ r.other_a ∷ [])))
tail_pieces tcp r =
    hosts_and_ports r ++ (flow_pieces r.ifs (codes " in") (codes " out") ++ tcp_option r.option)
tail_pieces udp r = hosts_and_ports r ++ flow_pieces r.ifs (codes " in ") (codes " out ")
tail_pieces icmp r =
    hosts r ++ (flow_pieces r.ifs (codes " in") (codes " out") ++ icmp_option r.option)

-- The command of a rule whose action is not FWD.
unfoldable pub command : Ruleset → Result Text
unfolding opening tail_pieces
command r = do cmd ← opening r.proto r.action; strcat_all cmd_size cmd (tail_pieces r.proto r)

-- if (strlen(port) > 0) { strcat(cmd, " "); and, unless port begins with "any", strcat(cmd, port); }
abbrev fwd_port_pieces : Text → List Text
fwd_port_pieces p =
    when (nonempty p) (if starts_with (codes "any") p then codes " " ∷ [] else codes " " ∷ p ∷ [])

pub fwd_pieces : Ruleset → List Text
fwd_pieces r =
    codes "from "
    ∷ r.src
    ∷ (fwd_port_pieces r.src_port ++ (codes "to " ∷ r.dst ∷ fwd_port_pieces r.dst_port))

-- "/sbin/ipfw -q add fwd %s,%s tcp " and its UDP twin, before they are cut to the buffer.
abbrev pub fwd_head : Ruleset → Text → Text
fwd_head r name =
    codes "/sbin/ipfw -q add fwd " ++ (r.other_a ++ (codes "," ++ (r.other_b ++ name)))

abbrev pub fwd_name : Proto → Text
fwd_name tcp = codes " tcp "
fwd_name udp = codes " udp "
fwd_name _ = []

-- Other protocols have no case.
pub fwd_opening : Proto → Ruleset → Result Text
fwd_opening tcp r = ok (snprintf cmd_size (fwd_head r (fwd_name tcp)))
fwd_opening udp r = ok (snprintf cmd_size (fwd_head r (fwd_name udp)))
fwd_opening _ r = fault uninitialised

-- The command of a rule whose action is FWD.
unfoldable pub fwd_command : Ruleset → Result Text
unfolding fwd_opening fwd_pieces
fwd_command r = do cmd ← fwd_opening r.proto r; strcat_all cmd_size cmd (fwd_pieces r)
