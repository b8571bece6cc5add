-- ===== src/Ipfw/Options.antt =====
-- The loop of `add` (sbin/ipfw/ipfw.c) over the options behind the addresses.
pub mod Ends
use closed_bsd.Base.{
  ℕ, zero, suc, ◌+◌, Bool, true, false, not, ◌&&◌, ◌||◌, List, [], ◌∷◌, ◌++◌, Option, none, some,
  ◌==◌, if◌then◌else◌, length,
}
use closed_bsd.Ipfw.Exits.{Exit, done, errx, out_of_fuel, ex_dataerr, ex_usage, ◌>>=◌}
use closed_bsd.Ipfw.Fields.{spells, row_of}
use closed_bsd.Ipfw.Flags.{fill_tcpflag, fill_tcpopts, fill_ipopt, fill_icmptypes}
use closed_bsd.Ipfw.Iface.{fill_iface, byname}
use closed_bsd.Ipfw.Libc.{Libc, ipproto_tcp, ipproto_icmp}
use closed_bsd.Ipfw.Numbers.{strtoul, atoi}
use closed_bsd.Ipfw.Rule.{
  syn, ack, LimitMask, src_addr, src_port, dst_addr, dst_port, Dynamic, dyn_limit, dyn_type,
  Interface, Rule,
}
use closed_bsd.Text.{Text, codes}

-- The rule so far, with the local variables `saw_xmrc` and `saw_via`.
pub record Progress : Type 0 where
  pub rule : Rule
  pub saw_xmrc : Bool
  pub saw_via : Bool

-- What is left of the argument list after an option.
abbrev pub Step : Type 0
Step = Exit (Progress × List Text)

abbrev pub set : Progress → Rule → List Text → Step
set p rule av = done (record p { rule = rule }, av)

abbrev pub found_id : Option ℕ → Exit ℕ
found_id none = errx ex_dataerr
found_id (some id) = done id

-- getpwuid or getgrgid of a number, else getpwnam or getgrnam.
abbrev pub look_up : (ℕ → Option ℕ) → (Text → Option ℕ) → Text → Exit ℕ
look_up by_id by_name word =
    let read = strtoul word in found_id (if length read.1 == 0 then by_id read.0 else by_name word)

unfoldable pub uid_option : Libc → Progress → List Text → Step
uid_option libc p [] = errx ex_usage
uid_option libc p (word ∷ av) =
    look_up libc.getpwuid libc.getpwnam word >>= λ id. set p (record p.rule { uid = some id }) av

unfoldable pub gid_option : Libc → Progress → List Text → Step
gid_option libc p [] = errx ex_usage
gid_option libc p (word ∷ av) =
    look_up libc.getgrgid libc.getgrnam word >>= λ id. set p (record p.rule { gid = some id }) av

abbrev pub limit_masks : List (Text × LimitMask)
limit_masks =
    (codes "src-addr", src_addr)
    ∷ (codes "src-port", src_port)
    ∷ (codes "dst-addr", dst_addr)
    ∷ (codes "dst-port", dst_port)
    ∷ []

-- for (; ac > 1; ) …: the masks in front of the last word.
unfoldable pub read_masks : List LimitMask → List Text → List LimitMask × List Text
read_masks masks [] = (masks, [])
read_masks masks (word ∷ []) = (masks, word ∷ [])
read_masks masks (word ∷ next ∷ av) = elim (row_of word limit_masks) [
  | none ↦ (masks, word ∷ next ∷ av)
  | some mask ↦ read_masks (masks ++ mask ∷ []) (next ∷ av)
]

unfoldable pub limit_option : Progress → List Text → Step
unfolding read_masks
limit_option p av =
    let read = read_masks [] av in
    elim read.1 [
      | [] ↦ errx ex_usage
      | word ∷ rest ↦
          (if atoi word == 0 || length read.0 == 0
            then errx ex_usage
            else set p
                (record p.rule {
                  keep_state = true;
                  dynamic = dyn_limit;
                  limit_mask = read.0;
                  conn_limit = atoi word;
                })
                rest)
    ]

-- "keep-state", with the type of the dynamic rule where a number follows.
unfoldable pub keep_option : Progress → List Text → Step
keep_option p [] = set p (record p.rule { keep_state = true }) []
keep_option p (word ∷ av) =
    if atoi word == 0
    then set p (record p.rule { keep_state = true }) (word ∷ av)
    else set p (record p.rule { keep_state = true; dynamic = dyn_type (atoi word) }) av

abbrev pub behind : List Text → List Text
behind [] = []
behind (word ∷ av) = av

unfoldable pub xmit_option : Libc → Progress → List Text → Step
xmit_option libc p av = elim p.saw_via [
  | true ↦ errx ex_usage
  | false ↦ fill_iface libc av >>= λ ifu. done (
    record p {
      saw_xmrc = true;
      rule = record p.rule { out_if = ifu; oiface = true; oifname = byname ifu || p.rule.oifname };
    },
    behind av,
  )
]

unfoldable pub recv_option : Libc → Progress → List Text → Step
recv_option libc p av = elim p.saw_via [
  | true ↦ errx ex_usage
  | false ↦ fill_iface libc av >>= λ ifu. done (
    record p {
      saw_xmrc = true;
      rule = record p.rule { in_if = ifu; iiface = true; iifname = byname ifu || p.rule.iifname };
    },
    behind av,
  )
]

unfoldable pub via_option : Libc → Progress → List Text → Step
via_option libc p av = elim p.saw_xmrc [
  | true ↦ errx ex_usage
  | false ↦ fill_iface libc av >>= λ ifu. done (
    record p {
      saw_via = true;
      rule = record p.rule {
        out_if = ifu;
        in_if = ifu;
        iifname = byname ifu || p.rule.iifname;
        oifname = byname ifu || p.rule.oifname;
      };
    },
    behind av,
  )
]

unfoldable pub ipoptions_option : Progress → List Text → Step
ipoptions_option p [] = errx ex_usage
ipoptions_option p (word ∷ av) =
    let bits = fill_ipopt (p.rule.ipopt, p.rule.ipnopt) word in
    set p (record p.rule { ipopt = bits.0; ipnopt = bits.1 }) av

unfoldable pub tcpflags_option : Progress → List Text → Step
tcpflags_option p [] = errx ex_usage
tcpflags_option p (word ∷ av) = fill_tcpflag (p.rule.tcpf, p.rule.tcpnf) word >>= λ bits.
    set p (record p.rule { tcpf = bits.0; tcpnf = bits.1 }) av

unfoldable pub tcpopts_option : Progress → List Text → Step
tcpopts_option p [] = errx ex_usage
tcpopts_option p (word ∷ av) = fill_tcpopts (p.rule.tcpopt, p.rule.tcpnopt) word >>= λ bits.
    set p (record p.rule { tcpopt = bits.0; tcpnopt = bits.1 }) av

unfoldable pub icmptypes_option : Libc → Progress → List Text → Step
icmptypes_option libc p [] = errx ex_usage
icmptypes_option libc p (word ∷ av) = fill_icmptypes libc p.rule.icmptypes word >>= λ types.
    set p (record p.rule { icmptypes = types }) av

-- The keywords that only a TCP rule has.
unfoldable pub tcp_keyword : Progress → Text → List Text → Step
tcp_keyword p word av =
    if spells word "established"
    then set p (record p.rule { tcpest = true }) av
    else if spells word "setup"
    then set p (record p.rule { tcpf = p.rule.tcpf ++ syn ∷ []; tcpnf = p.rule.tcpnf ++ ack ∷ [] })
        av
    else if spells word "tcpflags" || spells word "tcpflgs"
    then tcpflags_option p av
    else if spells word "tcpoptions" || spells word "tcpopts"
    then tcpopts_option p av
    else errx ex_usage

unfoldable pub icmp_keyword : Libc → Progress → Text → List Text → Step
icmp_keyword libc p word av =
    if spells word "icmptypes" then icmptypes_option libc p av else errx ex_usage

abbrev proto_keyword : Libc → Progress → Text → List Text → Step
proto_keyword libc p word av =
    if p.rule.prot == ipproto_tcp
    then tcp_keyword p word av
    else if p.rule.prot == ipproto_icmp
    then icmp_keyword libc p word av
    else errx ex_usage

-- One round of the loop: the chain of keywords.
unfoldable pub option_step : Libc → Progress → Text → List Text → Step
option_step libc p word av =
    if spells word "uid"
    then uid_option libc p av
    else if spells word "gid"
    then gid_option libc p av
    else if spells word "in"
    then set p (record p.rule { incoming = true }) av
    else if spells word "limit"
    then limit_option p av
    else if spells word "keep-state"
    then keep_option p av
    else if spells word "bridged"
    then set p (record p.rule { bridged = true }) av
    else if spells word "out"
    then set p (record p.rule { outgoing = true }) av
    else if spells word "xmit"
    then xmit_option libc p av
    else if spells word "recv"
    then recv_option libc p av
    else if spells word "via"
    then via_option libc p av
    else if spells word "fragment"
    then set p (record p.rule { frag = true }) av
    else if spells word "ipoptions"
    then ipoptions_option p av
    else proto_keyword libc p word av

-- while (ac), on fuel.
unfoldable pub options : Libc → ℕ → Progress → List Text → Exit Progress
unfolding option_step
options libc fuel p [] = done p
options libc zero p (word ∷ av) = out_of_fuel
options libc (suc fuel) p (word ∷ av) =
    option_step libc p word av >>= λ next. options libc fuel next.0 next.1
