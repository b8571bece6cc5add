-- ===== src/Rules/Ruleset.antt =====
-- `struct ruleset` and the enumerations of closedbsd/config/fw.h.
use closed_bsd.Base.{ℕ, Bool, true, false, []}
use closed_bsd.Text.{Text}

-- enum { ALLOW, DENY, DIVERT, FWD, RESET }
pub data Action : Type 0 where
  allow deny divert fwd reset : Action

-- enum { IP, TCP, UDP, ICMP }
pub data Proto : Type 0 where
  ip tcp udp icmp : Proto

-- enum { ANY, INCOMING, OUTGOING }
pub data Flow : Type 0 where
  any incoming outgoing : Flow

-- The field `option` is one int that TCP, IP and ICMP rules each read by an enumeration of their
-- own: { NONE, SETUP, ESTABLISHED, FRAG }, { IP_NONE, SSRR, LSRR, TS } and
-- { ICMP_NONE, ECHO_REPLY, DEST_UNREACH, ECHO_REQUEST }.
abbrev pub no_option : ℕ
no_option = 0

abbrev pub setup : ℕ
setup = 1

abbrev pub established : ℕ
established = 2

abbrev pub frag : ℕ
frag = 3

abbrev pub ssrr : ℕ
ssrr = 1

abbrev pub lsrr : ℕ
lsrr = 2

abbrev pub ts : ℕ
ts = 3

abbrev pub echo_reply : ℕ
echo_reply = 1

abbrev pub dest_unreach : ℕ
dest_unreach = 2

abbrev pub echo_request : ℕ
echo_request = 3

-- The arrays hold a text and its terminating zero. `id` and `cmd` are read by no code of rules.c.
pub record Ruleset : Type 0 where
  pub action : Action
  pub proto : Proto
  pub ifs : Flow
  pub option : ℕ
  pub src : Text  -- char [128]
  pub dst : Text  -- char [128]
  pub src_port : Text  -- char [5]
  pub dst_port : Text  -- char [5]
  pub other_a : Text  -- char [256]
  pub other_b : Text  -- char [256]

-- bzero(&rule, sizeof(rule)): every enumeration starts at 0.
abbrev pub zeroed : Ruleset
zeroed = record {
  action = allow;
  proto = ip;
  ifs = any;
  option = 0;
  src = [];
  dst = [];
  src_port = [];
  dst_port = [];
  other_a = [];
  other_b = [];
}

abbrev pub is_reset : Action → Bool
is_reset reset = true
is_reset _ = false

abbrev pub is_fwd : Action → Bool
is_fwd fwd = true
is_fwd _ = false

abbrev pub is_tcp : Proto → Bool
is_tcp tcp = true
is_tcp _ = false
