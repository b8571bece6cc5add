-- ===== src/Ipfw/Rule.antt =====
-- `struct ip_fw`, the rule that ipfw hands to the kernel, as far as `add` (sbin/ipfw/ipfw.c) sets
-- it. A bit of a flag word is a Boolean, a set of bits the list of those that were set, and the
-- union `fw_un` the argument of the action that fills it.
use closed_bsd.Base.{ℕ, Bool, false, List, [], Option, none}
use closed_bsd.Text.{Text}

-- The rows of the table `icmpcodes`, in its order: ICMP_UNREACH_NET, ICMP_UNREACH_HOST, …
pub data Unreach : Type 0 where
  net host protocol port needfrag srcfail net_unknown host_unknown isolated : Unreach
  net_prohib host_prohib tosnet toshost filter_prohib host_precedence precedence_cutoff : Unreach

pub data RejectCode : Type 0 where
  number : ℕ → RejectCode
  unreach : Unreach → RejectCode
  rst : RejectCode  -- IP_FW_REJECT_RST

-- The bits of IP_FW_F_COMMAND.
pub data Command : Type 0 where
  no_command accept count deny check_state : Command
  pipe queue divert tee skipto : ℕ → Command
  forward : ℕ → ℕ → Command  -- address and port
  reject : RejectCode → Command

-- How a list of ports begins: with a port, a range or a port and its mask.
pub data Ports : Type 0 where
  listed ranged masked : Ports

pub data TcpFlag : Type 0 where
  syn fin ack psh rst_flag urg : TcpFlag

pub data TcpOption : Type 0 where
  mss window sack ts_option cc_option : TcpOption

pub data IpOption : Type 0 where
  ssrr lsrr rr ts : IpOption

-- union ip_fw_if: an address, or a name and its unit, -1 for all units.
pub data Interface : Type 0 where
  by_address : ℕ → Interface
  by_name : Text → Option ℕ → Interface

-- DYN_SRC_ADDR, DYN_SRC_PORT, DYN_DST_ADDR, DYN_DST_PORT
pub data LimitMask : Type 0 where
  src_addr src_port dst_addr dst_port : LimitMask

pub data Dynamic : Type 0 where
  dyn_limit : Dynamic  -- DYN_LIMIT
  dyn_type : ℕ → Dynamic

-- `fw_logamount` before it is adjusted: 0, -1 or a count.
pub data LogAmount : Type 0 where
  by_default unlimited : LogAmount
  at_most : ℕ → LogAmount

pub record Rule : Type 0 where
  pub fw_number : ℕ
  pub dont_match_prob : Option ℕ
  pub command : Command
  pub prn : Bool
  pub logamount : LogAmount
  pub prot : ℕ
  pub inv_src : Bool
  pub inv_dst : Bool
  pub src_me : Bool
  pub dst_me : Bool
  pub src : ℕ × ℕ  -- address and mask
  pub dst : ℕ × ℕ
  pub src_ports : List ℕ
  pub dst_ports : List ℕ
  pub src_kind : Ports
  pub dst_kind : Ports
  pub uid : Option ℕ
  pub gid : Option ℕ
  pub incoming : Bool
  pub outgoing : Bool
  pub keep_state : Bool
  pub dynamic : Dynamic
  pub limit_mask : List LimitMask
  pub conn_limit : ℕ
  pub bridged : Bool
  pub in_if : Interface
  pub out_if : Interface
  pub iiface : Bool
  pub oiface : Bool
  pub iifname : Bool
  pub oifname : Bool
  pub frag : Bool
  pub ipopt : List IpOption
  pub ipnopt : List IpOption
  pub tcpest : Bool
  pub tcpf : List TcpFlag
  pub tcpnf : List TcpFlag
  pub tcpopt : List TcpOption
  pub tcpnopt : List TcpOption
  pub icmptypes : List ℕ

-- memset(&rule, 0, sizeof rule)
abbrev pub zeroed : Rule
zeroed = record {
  fw_number = 0;
  dont_match_prob = none;
  command = no_command;
  prn = false;
  logamount = by_default;
  prot = 0;
  inv_src = false;
  inv_dst = false;
  src_me = false;
  dst_me = false;
  src = (0, 0);
  dst = (0, 0);
  src_ports = [];
  dst_ports = [];
  src_kind = listed;
  dst_kind = listed;
  uid = none;
  gid = none;
  incoming = false;
  outgoing = false;
  keep_state = false;
  dynamic = dyn_type 0;
  limit_mask = [];
  conn_limit = 0;
  bridged = false;
  in_if = by_address 0;
  out_if = by_address 0;
  iiface = false;
  oiface = false;
  iifname = false;
  oifname = false;
  frag = false;
  ipopt = [];
  ipnopt = [];
  tcpest = false;
  tcpf = [];
  tcpnf = [];
  tcpopt = [];
  tcpnopt = [];
  icmptypes = [];
}

-- What is left of the argument list, with the rule so far.
abbrev pub Parsed : Type 0
Parsed = Rule × List Text
