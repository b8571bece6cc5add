-- ===== src/Ipfw/Add.antt =====
-- `add` (sbin/ipfw/ipfw.c): from the argument list behind "add" to the rule that the kernel gets.
use closed_bsd.Base.{
  ℕ, ◌+◌, Bool, true, false, ◌&&◌, ◌||◌, List, none, some, ltb, if◌then◌else◌, length,
}
use closed_bsd.Ipfw.Action.{read_number, read_prob, read_action}
use closed_bsd.Ipfw.Exits.{Exit, done, errx, ex_dataerr, ◌>>=◌}
use closed_bsd.Ipfw.Head.{
  read_log, read_logamount, read_proto, check_reset, read_from, read_to, check_ports,
}
use closed_bsd.Ipfw.Libc.{Libc}
use closed_bsd.Ipfw.Options.{Progress, options}
use closed_bsd.Ipfw.Rule.{
  Command, check_state, LogAmount, by_default, unlimited, at_most, Rule, zeroed,
}
use closed_bsd.Text.{Text}

-- No direction stands for both.
unfoldable pub both_ways : Rule → Rule
both_ways rule =
    if rule.incoming || rule.outgoing
    then rule
    else record rule { incoming = true; outgoing = true }

-- "via" checks the interface in each direction of the rule; "xmit" has no use for packets that
-- come in.
unfoldable pub check_via : Bool → Rule → Exit Rule
check_via saw_via rule = elim saw_via [
  | true ↦
      done (record rule {
        iiface = rule.incoming || rule.iiface;
        oiface = rule.outgoing || rule.oiface;
      })
  | false ↦ if rule.oiface && rule.incoming then errx ex_dataerr else done rule
]

unfoldable pub check_frag : Rule → Exit Rule
check_frag rule =
    if rule.frag
      && (ltb 0 (length rule.tcpf + length rule.tcpnf)
          || ltb 0 (length rule.src_ports + length rule.dst_ports))
    then errx ex_dataerr
    else done rule

-- The number of packets that are logged: by default the kernel's; zero stands for no limit.
unfoldable pub logged : Libc → LogAmount → Exit ℕ
logged libc by_default = elim libc.verbose_limit [ none ↦ errx 1 | some n ↦ done n ]
logged libc unlimited = done 0
logged libc (at_most n) = done n

unfoldable pub read_limit : Libc → Rule → Exit Rule
unfolding logged
read_limit libc rule = elim rule.prn [
  | false ↦ done rule
  | true ↦ logged libc rule.logamount >>= λ n. done (record rule { logamount = at_most n })
]

-- What follows the loop.
unfoldable pub finish : Libc → Progress → Exit Rule
unfolding both_ways check_via check_frag read_limit
finish libc p = check_via p.saw_via (both_ways p.rule) >>= λ rule.
    check_frag rule >>= λ rule. read_limit libc rule

-- "from", "to" and the options.
unfoldable pub read_hosts : Libc → Rule → List Text → Exit Rule
unfolding read_from read_to check_ports options finish
read_hosts libc rule av = read_from libc rule av >>= λ s. read_to libc s.0 s.1 >>= λ s.
    check_ports s.0 s.1 >>= λ s.
    options libc (length s.1) (record { rule = s.0; saw_xmrc = false; saw_via = false }) s.1
    >>= λ p. finish libc p

-- What follows the action, but for "check-state".
unfoldable pub read_body : Libc → Rule → List Text → Exit Rule
unfolding read_logamount read_log read_proto check_reset read_hosts
read_body libc rule av =
    let logged = read_log rule av in
    read_logamount logged.0 logged.1 >>= λ s.
    read_proto libc s.0 s.1 >>= λ s. check_reset s.0 s.1 >>= λ s. read_hosts libc s.0 s.1

unfoldable pub goes_on : Command → Bool
goes_on check_state = false
goes_on _ = true

-- `add`, up to the call of getsockopt with the rule.
unfoldable pub add : Libc → List Text → Exit Rule
unfolding read_number read_prob read_action read_body goes_on
add libc av =
    let numbered = read_number zeroed av in
    read_prob libc numbered.0 numbered.1 >>= λ s. read_action libc s.0 s.1 >>= λ s.
    (if goes_on s.0.command then read_body libc s.0 s.1 else done s.0)
