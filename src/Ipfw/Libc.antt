-- ===== src/Ipfw/Libc.antt =====
-- What ipfw asks of the C library and of the system's files, as parameters: host names, the
-- databases of protocols, services, users and groups, floating point, and the limits that the
-- kernel's header <netinet/ip_fw.h> sets.
use closed_bsd.Base.{ℕ, Option}
use closed_bsd.Text.{Text}

-- strtod(s) as a chance: outside (0, 1]; exactly 1; or below 1, with the share of 0x7fffffff that
-- (long)((1 - d) * 0x7fffffff) comes to.
pub data Chance : Type 0 where
  illegal always : Chance
  missing : ℕ → Chance

-- Addresses and ports are in host order.
pub record Libc : Type 0 where
  pub inet_aton : Text → Option ℕ
  pub gethostbyname : Text → Option ℕ
  pub getprotobyname : Text → Option ℕ
  pub getprotobynumber : ℕ → Option Text
  pub getservbyname : Text → Option Text → Option ℕ
  pub getpwuid : ℕ → Option ℕ
  pub getpwnam : Text → Option ℕ
  pub getgrgid : ℕ → Option ℕ
  pub getgrnam : Text → Option ℕ
  pub strtod : Text → Chance
  pub verbose_limit : Option ℕ  -- sysctl net.inet.ip.fw.verbose_limit
  pub max_ports : ℕ  -- IP_FW_MAX_PORTS
  pub icmp_types_dim : ℕ  -- IP_FW_ICMPTYPES_DIM
  pub if_name_size : ℕ  -- sizeof ifu->fu_via_if.name

-- The protocol numbers of <netinet/in.h>.
abbrev pub ipproto_ip : ℕ
ipproto_ip = 0

abbrev pub ipproto_icmp : ℕ
ipproto_icmp = 1

abbrev pub ipproto_tcp : ℕ
ipproto_tcp = 6

abbrev pub ipproto_udp : ℕ
ipproto_udp = 17
