-- ===== src/Ipfw/Head.antt =====
-- The part of `add` (sbin/ipfw/ipfw.c) from "log" to the ports of the destination.
use Prim.Native.Nat.{◌^◌}
use closed_bsd.Base.{
  ℕ, ◌+◌, ◌%◌, Bool, true, false, not, ◌&&◌, ◌||◌, List, [], ◌∷◌, Option, none, some, ◌==◌, ltb,
  if◌then◌else◌, length,
}
use closed_bsd.Ipfw.Address.{fill_ip}
use closed_bsd.Ipfw.Exits.{Exit, done, errx, ex_dataerr, ex_usage, ◌>>=◌}
use closed_bsd.Ipfw.Fields.{spells}
use closed_bsd.Ipfw.Libc.{Libc, ipproto_ip, ipproto_tcp, ipproto_udp}
use closed_bsd.Ipfw.Numbers.{atoi, is_negative, starts_with_digit}
use closed_bsd.Ipfw.Ports.{lookup_port, fill_port}
use closed_bsd.Ipfw.Rule.{Command, reject, rst, LogAmount, unlimited, at_most, Ports, Rule, Parsed}
use closed_bsd.Text.{Text, codes, starts_with}

-- [log]
unfoldable pub read_log : Rule → List Text → Parsed
read_log rule [] = (rule, [])
read_log rule (word ∷ av) =
    if spells word "log" then (record rule { prn = true }, av) else (rule, word ∷ av)

abbrev log_count : ℕ → LogAmount
log_count n = if n == 0 then unlimited else at_most n

-- [logamount N]
unfoldable pub read_logamount : Rule → List Text → Exit Parsed
read_logamount rule [] = done (rule, [])
read_logamount rule (word ∷ av) = elim (spells word "logamount") [
  | false ↦ done (rule, word ∷ av)
  | true ↦ elim rule.prn [
    | false ↦ errx ex_usage
    | true ↦ elim av [
      | [] ↦ errx ex_usage
      | amount ∷ rest ↦
          (if is_negative (atoi amount)
            then errx ex_dataerr
            else done (record rule { logamount = log_count (atoi amount) }, rest))
    ]
  ]
]

-- The protocol: a number that is kept in an unsigned char, "all", or a name.
unfoldable pub read_proto : Libc → Rule → List Text → Exit Parsed
read_proto libc rule [] = errx ex_usage
read_proto libc rule (word ∷ av) =
    let proto = atoi word % 2 ^ 8 in
    elim (proto == 0) [
      | false ↦ done (record rule { prot = proto }, av)
      | true ↦ elim (spells word "all") [
        | true ↦ done (record rule { prot = ipproto_ip }, av)
        | false ↦ elim (libc.getprotobyname word) [
          | none ↦ errx ex_dataerr
          | some found ↦ done (record rule { prot = found }, av)
        ]
      ]
    ]

unfoldable pub sends_rst : Command → Bool
sends_rst (reject rst) = true
sends_rst _ = false

-- "reset" is only for TCP.
unfoldable pub check_reset : Rule → List Text → Exit Parsed
unfolding sends_rst
check_reset rule av =
    if not (rule.prot == ipproto_tcp) && sends_rst rule.command
    then errx ex_dataerr
    else done (rule, av)

-- The words "from" and "to", with what follows.
unfoldable pub expect : Text → List Text → Exit (List Text)
expect keyword [] = errx ex_usage
expect keyword (word ∷ av) = if starts_with word keyword then done av else errx ex_usage

-- What stands behind "from" or "to": the address, negated or not, or "me".
pub record Host : Type 0 where
  pub inverted : Bool
  pub me : Bool
  pub address : ℕ × ℕ

abbrev pub read_not : List Text → Bool × List Text
read_not [] = (false, [])
read_not (word ∷ av) = if spells word "not" then (true, av) else (false, word ∷ av)

unfoldable pub read_address : Libc → Bool → List Text → Exit (Host × List Text)
read_address libc inverted [] = errx ex_usage
read_address libc inverted (word ∷ av) = elim (spells word "me") [
  | true ↦ done (record { inverted = inverted; me = true; address = (0, 0) }, av)
  | false ↦ fill_ip libc word >>= λ address.
      done (record { inverted = inverted; me = false; address = address }, av)
]

unfoldable pub read_host : Libc → List Text → Exit (Host × List Text)
unfolding read_address
read_host libc av = read_address libc (read_not av).0 (read_not av).1

abbrev is_some {ℓ} : {A : Type ℓ} → Option A → Bool
is_some none = false
is_some (some _) = true

-- A list of ports stands there if the word starts with a digit or a service has its name.
unfoldable pub is_ports : Libc → ℕ → Text → Bool
is_ports libc prot word = starts_with_digit word || is_some (lookup_port libc word prot true)

unfoldable pub read_ports : Libc → ℕ → ℕ → List Text → Exit (List ℕ × Ports × List Text)
unfolding is_ports
read_ports libc before prot [] = done ([], Ports.listed, [])
read_ports libc before prot (word ∷ av) = elim (is_ports libc prot word) [
  | false ↦ done ([], Ports.listed, word ∷ av)
  | true ↦ fill_port libc before prot word >>= λ ports. done (ports.0, ports.1, av)
]

-- "from HOST [PORTS]"
unfoldable pub read_from : Libc → Rule → List Text → Exit Parsed
unfolding expect read_host read_ports
read_from libc rule av = expect (codes "from") av >>= λ av. read_host libc av >>= λ host.
    read_ports libc 0 rule.prot host.1 >>= λ ports. done (
      record rule {
        inv_src = host.0.inverted;
        src_me = host.0.me;
        src = host.0.address;
        src_ports = ports.0;
        src_kind = ports.1;
      },
      ports.2,
    )

-- "to HOST [PORTS]": the array of ports goes on behind those of the source.
unfoldable pub read_to : Libc → Rule → List Text → Exit Parsed
unfolding expect read_host read_ports
read_to libc rule av = expect (codes "to") av >>= λ av. read_host libc av >>= λ host.
    read_ports libc (length rule.src_ports) rule.prot host.1 >>= λ ports. done (
      record rule {
        inv_dst = host.0.inverted;
        dst_me = host.0.me;
        dst = host.0.address;
        dst_ports = ports.0;
        dst_kind = ports.1;
      },
      ports.2,
    )

-- Ports are only for TCP and UDP.
unfoldable pub check_ports : Rule → List Text → Exit Parsed
check_ports rule av =
    if not (rule.prot == ipproto_tcp)
      && not (rule.prot == ipproto_udp)
      && ltb 0 (length rule.src_ports + length rule.dst_ports)
    then errx ex_usage
    else done (rule, av)
