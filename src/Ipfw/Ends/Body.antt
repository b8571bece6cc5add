-- ===== src/Ipfw/Ends/Body.antt =====
-- What stands behind a rule's action is read to an end.
use closed_bsd.Base.{inl, inr, Bool, List, [], ◌∷◌, arith, length, Bool-cases}
use closed_bsd.Ipfw.Add.{
  check_via, check_frag, read_limit, finish, read_hosts, read_body, logged, both_ways,
}
use closed_bsd.Ipfw.Exits.{Ends, >>=-Ends}
use closed_bsd.Ipfw.Head.{
  read_logamount, read_proto, check_reset, expect, read_host, read_ports, read_from, read_to,
  check_ports,
}
use closed_bsd.Ipfw.Libc.{Libc}
use closed_bsd.Ipfw.Options.Ends.{options-Ends}
use closed_bsd.Ipfw.Options.{Progress, options}
use closed_bsd.Ipfw.Rule.{Rule, LogAmount}
use closed_bsd.Text.{Text, codes}
use closed_bsd.Ipfw.Ends.Hosts.{read_host-Ends, read_ports-Ends}

module _ (libc : Libc) where
  expect-Ends : (keyword : Text) (av : List Text) → Ends (expect keyword av)
  unfolding expect
  expect-Ends keyword [] = tt
  expect-Ends keyword (word ∷ av) = ground arith

  read_from-Ends : (rule : Rule) (av : List Text) → Ends (read_from libc rule av)
  unfolding read_from
  read_from-Ends rule av =
      >>=-Ends (expect (codes "from") av) _ (expect-Ends (codes "from") av) (λ av.
        >>=-Ends (read_host libc av) _ (read_host-Ends libc av) (λ host.
          >>=-Ends (read_ports libc 0 rule.prot host.1) _ (read_ports-Ends libc 0 rule.prot host.1)
            (λ ports. tt)))

  read_to-Ends : (rule : Rule) (av : List Text) → Ends (read_to libc rule av)
  unfolding read_to
  read_to-Ends rule av = >>=-Ends (expect (codes "to") av) _ (expect-Ends (codes "to") av) (λ av.
      >>=-Ends (read_host libc av) _ (read_host-Ends libc av) (λ host.
        >>=-Ends (read_ports libc (length rule.src_ports) rule.prot host.1) _
          (read_ports-Ends libc (length rule.src_ports) rule.prot host.1) (λ ports. tt)))

  read_logamount-Ends : (rule : Rule) (av : List Text) → Ends (read_logamount rule av)
  unfolding read_logamount
  read_logamount-Ends rule [] = tt
  read_logamount-Ends rule (word ∷ []) = ground arith
  read_logamount-Ends rule (word ∷ amount ∷ av) = ground arith

  read_proto-Ends : (rule : Rule) (av : List Text) → Ends (read_proto libc rule av)
  unfolding read_proto
  read_proto-Ends rule [] = tt
  read_proto-Ends rule (word ∷ av) = ground arith

  check_reset-Ends : (rule : Rule) (av : List Text) → Ends (check_reset rule av)
  unfolding check_reset
  check_reset-Ends rule av = ground arith

  check_ports-Ends : (rule : Rule) (av : List Text) → Ends (check_ports rule av)
  unfolding check_ports
  check_ports-Ends rule av = ground arith

  logged-Ends : (amount : LogAmount) → Ends (logged libc amount)
  unfolding logged
  logged-Ends LogAmount.by_default = ground arith
  logged-Ends LogAmount.unlimited = tt
  logged-Ends (LogAmount.at_most n) = tt

  read_limit-Ends : (rule : Rule) → Ends (read_limit libc rule)
  unfolding read_limit
  read_limit-Ends rule = elim (Bool-cases rule.prn) [
    | inl e ↦
        rw (e, read_limit)
          (>>=-Ends (logged libc rule.logamount) _ (logged-Ends rule.logamount) (λ n. tt))
    | inr e ↦ rw (e, read_limit) tt
  ]

  check_via-Ends : (saw : Bool) (rule : Rule) → Ends (check_via saw rule)
  unfolding check_via
  check_via-Ends saw rule = ground arith

  check_frag-Ends : (rule : Rule) → Ends (check_frag rule)
  unfolding check_frag
  check_frag-Ends rule = ground arith

  finish-Ends : (p : Progress) → Ends (finish libc p)
  unfolding finish
  finish-Ends p =
      >>=-Ends (check_via p.saw_via (both_ways p.rule)) _
        (check_via-Ends p.saw_via (both_ways p.rule))
        (λ rule. >>=-Ends (check_frag rule) _ (check_frag-Ends rule) (λ rule. read_limit-Ends rule))

  read_hosts-Ends : (rule : Rule) (av : List Text) → Ends (read_hosts libc rule av)
  unfolding read_hosts
  read_hosts-Ends rule av = >>=-Ends (read_from libc rule av) _ (read_from-Ends rule av) (λ s.
      >>=-Ends (read_to libc s.0 s.1) _ (read_to-Ends s.0 s.1) (λ s.
        >>=-Ends (check_ports s.0 s.1) _ (check_ports-Ends s.0 s.1) (λ s.
          >>=-Ends (options libc (length s.1) _ s.1) _
            (options-Ends libc (length s.1) _ s.1 (omega arith)) (λ p. finish-Ends p))))

  pub read_body-Ends : (rule : Rule) (av : List Text) → Ends (read_body libc rule av)
  unfolding read_body
  read_body-Ends rule av = >>=-Ends (read_logamount _ _) _ (read_logamount-Ends _ _) (λ s.
      >>=-Ends (read_proto libc s.0 s.1) _ (read_proto-Ends s.0 s.1) (λ s.
        >>=-Ends (check_reset s.0 s.1) _ (check_reset-Ends s.0 s.1) (λ s. read_hosts-Ends s.0 s.1)))
