-- ===== src/Ipfw/Flags.antt =====
-- The option arguments: `fill_reject_code`, `fill_tcpflag`, `fill_tcpopts`, `fill_ipopt` and
-- `fill_icmptypes` (sbin/ipfw/ipfw.c).
use closed_bsd.Base.{
  ℕ, zero, suc, ◌*◌, Bool, true, false, ◌&&◌, List, [], ◌∷◌, ◌++◌, none, some, ◌==◌, ltb, leb,
  if◌then◌else◌, length,
}
use closed_bsd.Ipfw.Exits.{Exit, done, errx, out_of_fuel, ex_dataerr}
use closed_bsd.Ipfw.Fields.{spells, fields, negated, row_of, strcasecmp_eq}
use closed_bsd.Ipfw.Libc.{Libc}
use closed_bsd.Ipfw.Numbers.{strtoul}
use closed_bsd.Ipfw.Rule.{
  Unreach, net, host, protocol, port, needfrag, srcfail, net_unknown, host_unknown, isolated,
  net_prohib, host_prohib, tosnet, toshost, filter_prohib, host_precedence, precedence_cutoff,
  RejectCode, number, unreach, TcpFlag, syn, fin, ack, psh, rst_flag, urg, TcpOption, mss, window,
  sack, ts_option, cc_option, IpOption, ssrr, lsrr, rr, ts,
}
use closed_bsd.Text.{Text, codes}

abbrev pub icmpcodes : List (Text × Unreach)
icmpcodes =
    (codes "net", net)
    ∷ (codes "host", host)
    ∷ (codes "protocol", protocol)
    ∷ (codes "port", port)
    ∷ (codes "needfrag", needfrag)
    ∷ (codes "srcfail", srcfail)
    ∷ (codes "net-unknown", net_unknown)
    ∷ (codes "host-unknown", host_unknown)
    ∷ (codes "isolated", isolated)
    ∷ (codes "net-prohib", net_prohib)
    ∷ (codes "host-prohib", host_prohib)
    ∷ (codes "tosnet", tosnet)
    ∷ (codes "toshost", toshost)
    ∷ (codes "filter-prohib", filter_prohib)
    ∷ (codes "host-precedence", host_precedence)
    ∷ (codes "precedence-cutoff", precedence_cutoff)
    ∷ []

-- The loop over `icmpcodes`, whose names are compared in full.
unfoldable pub named_code : Text → List (Text × Unreach) → Exit RejectCode
named_code str [] = errx ex_dataerr
named_code str (row ∷ rows) =
    if strcasecmp_eq str row.0 then done (unreach row.1) else named_code str rows

unfoldable pub fill_reject_code : Text → Exit RejectCode
unfolding named_code
fill_reject_code str =
    let read = strtoul str in
    elim (ltb (length read.1) (length str) && length read.1 == 0 && ltb read.0 256) [
      | true ↦ done (number read.0)
      | false ↦ named_code str icmpcodes
    ]

abbrev pub tcp_flags : List (Text × TcpFlag)
tcp_flags =
    (codes "syn", syn)
    ∷ (codes "fin", fin)
    ∷ (codes "ack", ack)
    ∷ (codes "psh", psh)
    ∷ (codes "rst", rst_flag)
    ∷ (codes "urg", urg)
    ∷ []

abbrev pub tcp_options : List (Text × TcpOption)
tcp_options =
    (codes "mss", mss)
    ∷ (codes "window", window)
    ∷ (codes "sack", sack)
    ∷ (codes "ts", ts_option)
    ∷ (codes "cc", cc_option)
    ∷ []

-- The loop of `fill_tcpflag` and `fill_tcpopts` over the fields, with its table: each field sets a
-- bit of `set`, or of `reset` behind a '!'.
unfoldable pub fill_bits {ℓ} :
    {A : Type ℓ} → List (Text × A) → List A × List A → List Text → Exit (List A × List A)
fill_bits table bits [] = done bits
fill_bits table bits (field ∷ rest) = elim (row_of (negated field).1 table) [
  | none ↦ errx ex_dataerr
  | some bit ↦
      fill_bits table
        (if (negated field).0 then (bits.0, bits.1 ++ bit ∷ []) else (bits.0 ++ bit ∷ [], bits.1))
        rest
]

unfoldable pub fill_tcpflag :
    List TcpFlag × List TcpFlag → Text → Exit (List TcpFlag × List TcpFlag)
unfolding fill_bits
fill_tcpflag bits p = fill_bits tcp_flags bits (fields p)

unfoldable pub fill_tcpopts :
    List TcpOption × List TcpOption → Text → Exit (List TcpOption × List TcpOption)
unfolding fill_bits
fill_tcpopts bits p = fill_bits tcp_options bits (fields p)

abbrev when_spelt : Text → Bool → List IpOption → List IpOption
when_spelt p test found = if test then found else []

-- The four tests, each on its own: a field that spells none of the options sets no bit.
unfoldable pub ip_bits : Text → List IpOption
ip_bits p =
    when_spelt p (spells p "ssrr") (ssrr ∷ [])
    ++ (when_spelt p (spells p "lsrr") (lsrr ∷ [])
        ++ (when_spelt p (spells p "rr") (rr ∷ []) ++ when_spelt p (spells p "ts") (ts ∷ [])))

unfoldable pub fill_ip_fields :
    List IpOption × List IpOption → List Text → List IpOption × List IpOption
unfolding ip_bits
fill_ip_fields bits [] = bits
fill_ip_fields bits (field ∷ rest) =
    let found = ip_bits (negated field).1 in
    fill_ip_fields
      (if (negated field).0 then (bits.0, bits.1 ++ found) else (bits.0 ++ found, bits.1)) rest

unfoldable pub fill_ipopt : List IpOption × List IpOption → Text → List IpOption × List IpOption
unfolding fill_ip_fields
fill_ipopt bits p = fill_ip_fields bits (fields p)

-- if (*c == ',') ++c;
unfoldable pub past_comma : Text → Text
past_comma [] = []
past_comma (c ∷ cs) = if c == b',' then cs else c ∷ cs

-- The number ends at a comma or at the end of the text.
unfoldable pub ends_number : Text → Bool
ends_number [] = true
ends_number (c ∷ cs) = c == b','

-- The loop of `fill_icmptypes`, one number a round: the numbers of the bits that are set.
unfoldable pub icmp_loop : Libc → ℕ → List ℕ → Text → Exit (List ℕ)
unfolding past_comma ends_number
icmp_loop libc fuel types [] = done types
icmp_loop libc zero types (c ∷ cs) = out_of_fuel
icmp_loop libc (suc fuel) types (c ∷ cs) =
    let read = strtoul (past_comma (c ∷ cs)) in
    let next = icmp_loop libc fuel (types ++ read.0 ∷ []) read.1 in
    if ends_number read.1
    then if leb (libc.icmp_types_dim * 32) read.0 then errx ex_dataerr else next
    else errx ex_dataerr

-- One round for each byte is enough.
unfoldable pub fill_icmptypes : Libc → List ℕ → Text → Exit (List ℕ)
unfolding icmp_loop
fill_icmptypes libc types s = icmp_loop libc (length s) types s
