-- ===== src/Loaded/Lab.antt =====
-- A C library that knows one host, and a rule for it.
use closed_bsd.Base.{ℕ, ◌≡◌, refl, inl, inr, [], ◌∷◌, Option, none, some, if◌then◌else◌, arith}
use closed_bsd.Fault.{ok}
use closed_bsd.Ipfw.Address.{fill_ip, fill_host, lookup_host}
use closed_bsd.Ipfw.Numbers.{
  bit_and, strtoul, is_digit, sign, skip_spaces, any_base, magnitude, digits, digit_in, to_ulong,
}
use closed_bsd.Ipfw.Iface.{same_text}
use closed_bsd.Ipfw.Libc.{Libc, always}
use closed_bsd.Loaded.Spec.{Endpoints, IsUsual, IsHost, IsNumeral, all_digits, AreEndpoints}
use closed_bsd.Rules.Command.Grammar.{IsSpoken}
use closed_bsd.Rules.Command.{opening}
use closed_bsd.Rules.Ruleset.{allow, tcp, incoming, setup, Ruleset}
use closed_bsd.Text.Token.{saved}
use closed_bsd.Text.{Text, codes, contains, starts_with}

unfoldable pub known_host : Text → Option ℕ
unfolding same_text
known_host name = if same_text name (codes "10.0.0.1") then some 167772161 else none

unfoldable pub known_proto : Text → Option ℕ
unfolding same_text
known_proto name =
    if same_text name (codes "ip")
    then some 0
    else if same_text name (codes "tcp")
    then some 6
    else if same_text name (codes "udp")
    then some 17
    else if same_text name (codes "icmp")
    then some 1
    else none

abbrev pub lab : Libc
lab = record {
  inet_aton = known_host;
  gethostbyname = λ name. none;
  getprotobyname = known_proto;
  getprotobynumber = λ n. none;
  getservbyname = λ name proto. none;
  getpwuid = λ n. none;
  getpwnam = λ name. none;
  getgrgid = λ n. none;
  getgrnam = λ name. none;
  strtod = λ s. always;
  verbose_limit = none;
  max_ports = 10;
  icmp_types_dim = 8;
  if_name_size = 10;
}

pub lab-IsUsual : IsUsual lab
unfolding known_proto
lab-IsUsual = record {
  proto_ip = refl;
  proto_tcp = refl;
  proto_udp = refl;
  proto_icmp = refl;
  no_to = λ name. refl;
  no_in = λ name. refl;
  no_out = λ name. refl;
  no_via = λ name. refl;
  no_ipoptions = λ name. refl;
  no_setup = λ name. refl;
  no_established = λ name. refl;
  no_frag = λ name. refl;
  no_icmptypes = λ name. refl;
  room = omega arith;
  types = omega arith;
}

-- TCP connections from anywhere to port 80 of 10.0.0.1.
abbrev pub served : Ruleset
served = record {
  action = allow;
  proto = tcp;
  ifs = incoming;
  option = setup;
  src = codes "any";
  dst = codes "10.0.0.1";
  src_port = [];
  dst_port = codes "80";
  other_a = [];
  other_b = [];
}

pub served_opening : opening served.proto served.action ≡ ok (codes "/sbin/ipfw -q add allow tcp ")
unfolding opening
served_opening = refl

pub served-IsSpoken : IsSpoken served
unfolding contains
served-IsSpoken = record {
  src_word = record { no_blank = refl; some_byte = λ e. cc };
  dst_word = record { no_blank = refl; some_byte = λ e. cc };
  src_port_word = inl refl;
  dst_port_word = inr (record { no_blank = refl; some_byte = λ e. cc });
  plain = refl;
  no_other = λ e. cc;
}

abbrev pub served_ends : Endpoints
served_ends = record {
  src = (0, 0);
  dst = (167772161, 4294967295);
  src_ports = [];
  dst_ports = 80 ∷ [];
}

pub any-IsHost : IsHost lab (codes "any") (0, 0)
unfolding starts_with fill_ip
any-IsHost = record { not_not = refl; not_me = refl; read = refl }

pub gateway-IsHost : IsHost lab (codes "10.0.0.1") (167772161, 4294967295)
unfolding starts_with fill_ip fill_host lookup_host known_host same_text bit_and saved
gateway-IsHost = record { not_not = refl; not_me = refl; read = refl }

pub port-IsNumeral : IsNumeral (codes "80") 80
unfolding all_digits is_digit strtoul sign skip_spaces any_base magnitude digits digit_in to_ulong
port-IsNumeral = record {
  some_byte = refl;
  in_digits = refl;
  short = omega arith;
  value = refl;
  is_port = omega arith;
}

pub served-AreEndpoints : AreEndpoints lab served served_ends
served-AreEndpoints = record {
  src_host = any-IsHost;
  dst_host = gateway-IsHost;
  src_port = tt;
  dst_port = port-IsNumeral;
}
