-- ===== src/Loaded/Spec.antt =====
-- What a rule of the forms means to the kernel, and what ipfw needs to know for it.
use closed_bsd.Base.{
  ℕ, ◌+◌, ◌≤◌, ◌<◌, ◌≡◌, Bool, true, false, ◌&&◌, List, [], ◌∷◌, Option, none, some, ◌==◌, ltb,
  if◌then◌else◌, length,
}
use closed_bsd.Ipfw.Address.{fill_ip}
use closed_bsd.Ipfw.Dispatch.{Request, add_rule}
use closed_bsd.Ipfw.Exits.{Exit, done, errx, ex_dataerr}
use closed_bsd.Ipfw.Fields.{spells}
use closed_bsd.Ipfw.Libc.{Libc, ipproto_ip, ipproto_tcp, ipproto_udp, ipproto_icmp}
use closed_bsd.Ipfw.Numbers.{is_digit, strtoul}
use closed_bsd.Ipfw.Rule as Kernel
use closed_bsd.Rules.Command.Grammar.{ports_of}
use closed_bsd.Rules.Ruleset.{
  Action, allow, deny, divert, fwd, reset, Proto, ip, tcp, udp, icmp, Flow, any, incoming, outgoing,
  setup, established, frag, ssrr, lsrr, ts, echo_reply, dest_unreach, echo_request, Ruleset,
}
use closed_bsd.Text.{Text, codes}

abbrev pub command_of : Action → Kernel.Command
command_of allow = Kernel.accept
command_of deny = Kernel.deny
command_of divert = Kernel.divert 8668
command_of fwd = Kernel.no_command
command_of reset = Kernel.reject Kernel.rst

abbrev pub number_of : Proto → ℕ
number_of ip = ipproto_ip
number_of tcp = ipproto_tcp
number_of udp = ipproto_udp
number_of icmp = ipproto_icmp

abbrev pub with_flow : Flow → Kernel.Rule → Kernel.Rule
with_flow any rule = record rule { incoming = true; outgoing = true }
with_flow incoming rule = record rule { incoming = true; outgoing = false }
with_flow outgoing rule = record rule { incoming = false; outgoing = true }

-- The option of a rule, where Echo Request is the ICMP type `echo`.
abbrev pub with_option : ℕ → Proto → ℕ → Kernel.Rule → Kernel.Rule
with_option echo ip o rule =
    if o == ssrr
    then record rule { ipopt = Kernel.ssrr ∷ [] }
    else if o == lsrr
    then record rule { ipopt = Kernel.lsrr ∷ [] }
    else if o == ts
    then record rule { ipopt = Kernel.ts ∷ [] }
    else rule
with_option echo tcp o rule =
    if o == setup
    then record rule { tcpf = Kernel.syn ∷ []; tcpnf = Kernel.ack ∷ [] }
    else if o == established
    then record rule { tcpest = true }
    else if o == frag
    then record rule { frag = true }
    else rule
with_option echo udp o rule = rule
with_option echo icmp o rule =
    if o == echo_request
    then record rule { icmptypes = echo ∷ [] }
    else if o == dest_unreach
    then record rule { icmptypes = 3 ∷ [] }
    else if o == echo_reply
    then record rule { icmptypes = 0 ∷ [] }
    else rule

-- What ipfw makes of the addresses and ports of a rule.
pub record Endpoints : Type 0 where
  pub src : ℕ × ℕ
  pub dst : ℕ × ℕ
  pub src_ports : List ℕ
  pub dst_ports : List ℕ

-- A rule with its action, its protocol, its addresses and its ports.
abbrev pub hosted : Action → Proto → Endpoints → Kernel.Rule
hosted a p e = record Kernel.zeroed {
  command = command_of a;
  prot = number_of p;
  src = e.src;
  dst = e.dst;
  src_ports = e.src_ports;
  dst_ports = e.dst_ports;
}

-- The rule of the kernel that a rule of the forms stands for: that which the user means where `echo` is
-- the ICMP type of an echo request, 8.
abbrev pub kernel_rule : ℕ → Ruleset → Endpoints → Kernel.Rule
kernel_rule echo r e =
    with_option echo r.proto r.option (with_flow r.ifs (hosted r.action r.proto e))

-- A rule for TCP fragments that names a port.
abbrev pub is_tcp : Proto → Bool
is_tcp tcp = true
is_tcp _ = false

abbrev pub clashes : Proto → ℕ → Endpoints → Bool
clashes p o e = is_tcp p && o == frag && ltb 0 (length e.src_ports + length e.dst_ports)

-- The ICMP type 5, a redirect, which rules.c writes for Echo Request.
abbrev pub redirect : ℕ
redirect = 5

-- The answer of ipfw to the command of a rule.
abbrev pub verdict : Ruleset → Endpoints → Exit Request
verdict r e =
    if clashes r.proto r.option e
    then errx ex_dataerr
    else done (add_rule (kernel_rule redirect r e))

-- No service has the name of one of these words.
abbrev pub NoService : Libc → Text → Type 0
NoService libc word = (name : Option Text) → libc.getservbyname word name ≡ none

-- /etc/protocols has its usual entries, no service is called like a keyword, and the kernel's rule
-- has room for two ports and for the ICMP types below 32.
pub record IsUsual (libc : Libc) : Type 0 where
  pub proto_ip : libc.getprotobyname (codes "ip") ≡ some 0
  pub proto_tcp : libc.getprotobyname (codes "tcp") ≡ some 6
  pub proto_udp : libc.getprotobyname (codes "udp") ≡ some 17
  pub proto_icmp : libc.getprotobyname (codes "icmp") ≡ some 1
  pub no_to : NoService libc (codes "to")
  pub no_in : NoService libc (codes "in")
  pub no_out : NoService libc (codes "out")
  pub no_via : NoService libc (codes "via")
  pub no_ipoptions : NoService libc (codes "ipoptions")
  pub no_setup : NoService libc (codes "setup")
  pub no_established : NoService libc (codes "established")
  pub no_frag : NoService libc (codes "frag")
  pub no_icmptypes : NoService libc (codes "icmptypes")
  pub room : 2 ≤ libc.max_ports
  pub types : 0 < libc.icmp_types_dim

-- An address that ipfw takes: it is no start of "not" or "me", and `fill_ip` reads it.
pub record IsHost (libc : Libc) (word : Text) (address : ℕ × ℕ) : Type 0 where
  pub not_not : spells word "not" ≡ false
  pub not_me : spells word "me" ≡ false
  pub read : fill_ip libc word ≡ done address

unfoldable pub all_digits : Text → Bool
unfolding is_digit
all_digits [] = true
all_digits (c ∷ cs) = is_digit c && all_digits cs

-- A port in digits.
pub record IsNumeral (word : Text) (port : ℕ) : Type 0 where
  pub some_byte : ltb 0 (length word) ≡ true
  pub in_digits : all_digits word ≡ true
  pub short : length word ≤ 31
  pub value : strtoul word ≡ (port, [])
  pub is_port : port ≤ 65535

-- The words of a port list, none or one, and what they are read as.
abbrev pub ArePorts : List Text → List ℕ → Type 0
ArePorts [] [] = Unit
ArePorts (word ∷ []) (port ∷ []) = IsNumeral word port
ArePorts _ _ = ⊥

pub record AreEndpoints (libc : Libc) (r : Ruleset) (e : Endpoints) : Type 0 where
  pub src_host : IsHost libc r.src e.src
  pub dst_host : IsHost libc r.dst e.dst
  pub src_port : ArePorts (ports_of r.proto r.src_port) e.src_ports
  pub dst_port : ArePorts (ports_of r.proto r.dst_port) e.dst_ports
