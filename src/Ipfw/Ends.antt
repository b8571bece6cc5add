-- ===== src/Ipfw/Ends.antt =====
-- Every run of ipfw comes to an end: no loop of the parser runs out of fuel.
pub mod Hosts
pub mod Body
use closed_bsd.Base.{
  ℕ, ◌+◌, ◌≡◌, refl, inl, inr, Bool, true, false, List, [], ◌∷◌, ◌++◌, arith, length, leb, ltb,
  ◌==◌, if◌then◌else◌, Bool-cases, Option, none, some, Option-cases,
}
use closed_bsd.Ipfw.Action.{
  read_number, read_prob, numbered, diverted, forwarded, forward_port, target_parts, skipped,
  unreached, by_keyword, read_action,
}
use closed_bsd.Ipfw.Add.{
  check_via, check_frag, read_limit, finish, read_body, add, goes_on, logged, both_ways,
}
use closed_bsd.Ipfw.Address.{by_width, by_netmask, found_host, fill_host, fill_ip}
use closed_bsd.Ipfw.Exits.{
  Exit, done, errx, ex_usage, undefined, out_of_fuel, Ends, ◌>>=◌, >>=-Ends,
}
use closed_bsd.Ipfw.Flags.{named_code, fill_reject_code, icmpcodes}
use closed_bsd.Ipfw.Head.{
  read_logamount, read_proto, check_reset, expect, read_host, read_ports, read_from, read_to,
  check_ports, is_ports, read_not,
}
use closed_bsd.Ipfw.Libc.{Libc}
use closed_bsd.Ipfw.Options.Ends.{options-Ends}
use closed_bsd.Ipfw.Options.{Progress, options}
use closed_bsd.Ipfw.Ports.{must_port, port_or, add_port, fill_list, fill_pair, fill_port, scan}
use closed_bsd.Ipfw.Rule.{Ports, listed, ranged, masked, Rule, Unreach, Command, LogAmount}
use closed_bsd.Ipfw.Fields.{pieces}
use closed_bsd.Text.{Text, codes, contains}
use closed_bsd.Ipfw.Ends.Hosts.{fill_ip-Ends}
use closed_bsd.Ipfw.Ends.Body.{read_body-Ends}
use closed_bsd.Ipfw.Rule.{Parsed, zeroed}
use closed_bsd.Ipfw.Numbers.{atoi}
use closed_bsd.Ipfw.Dispatch.{
  Globals, initial, add_rule, one_letter, letters, is_flags, ends_flags, behind_dash, read_flags,
  read_pipe, swapped, dispatch, start, ipfw_main,
}

module _ (libc : Libc) where
  diverted-Ends :
      (command : ℕ → Command) (rule : Rule) (av : List Text) → Ends (diverted libc command rule av)
  unfolding diverted
  diverted-Ends command rule [] = tt
  diverted-Ends command rule (word ∷ av) = ground arith

  forward_port-Ends : (pp : Option Text) → Ends (forward_port libc pp)
  forward_port-Ends none = tt
  forward_port-Ends (some pp) = ground arith

  forwarded-Ends : (rule : Rule) (av : List Text) → Ends (forwarded libc rule av)
  unfolding forwarded
  forwarded-Ends rule [] = tt
  forwarded-Ends rule (word ∷ av) =
      >>=-Ends (forward_port libc (target_parts word).1) _ (forward_port-Ends (target_parts word).1)
        (λ port.
          >>=-Ends (fill_ip libc (target_parts word).0) _ (fill_ip-Ends libc (target_parts word).0)
            (λ target. ground arith))

  numbered-Ends :
      (command : ℕ → Command) (rule : Rule) (av : List Text) → Ends (numbered command rule av)
  unfolding numbered
  numbered-Ends command rule [] = tt
  numbered-Ends command rule (word ∷ av) = tt

  skipped-Ends : (rule : Rule) (av : List Text) → Ends (skipped rule av)
  unfolding skipped
  skipped-Ends rule [] = tt
  skipped-Ends rule (word ∷ av) = tt

  named_code-Ends : (str : Text) (rows : List (Text × Unreach)) → Ends (named_code str rows)
  unfolding named_code
  named_code-Ends str [] = tt
  named_code-Ends str (row ∷ rows) = ground (arith, named_code-Ends str rows)

  fill_reject_code-Ends : (str : Text) → Ends (fill_reject_code str)
  unfolding fill_reject_code
  fill_reject_code-Ends str = ground (arith, named_code-Ends str icmpcodes)

  unreached-Ends : (rule : Rule) (av : List Text) → Ends (unreached rule av)
  unfolding unreached
  unreached-Ends rule [] = tt
  unreached-Ends rule (word ∷ av) =
      >>=-Ends (fill_reject_code word) _ (fill_reject_code-Ends word) (λ code. tt)

  read_action-Ends : (rule : Rule) (av : List Text) → Ends (read_action libc rule av)
  unfolding read_action by_keyword
  read_action-Ends rule [] = tt
  read_action-Ends rule (word ∷ av) = ground (
    arith,
    numbered-Ends Command.pipe rule av,
    numbered-Ends Command.queue rule av,
    diverted-Ends Command.divert rule av,
    diverted-Ends Command.tee rule av,
    forwarded-Ends rule av,
    skipped-Ends rule av,
    unreached-Ends rule av,
  )

  read_prob-Ends : (rule : Rule) (av : List Text) → Ends (read_prob libc rule av)
  unfolding read_prob
  read_prob-Ends rule [] = tt
  read_prob-Ends rule (word ∷ []) = tt
  read_prob-Ends rule (word ∷ chance ∷ av) = ground arith

  body-Ends : (s : Parsed) → Ends (if goes_on s.0.command then read_body libc s.0 s.1 else done s.0)
  body-Ends s = ground (arith, read_body-Ends libc s.0 s.1)

  add-Ends : (av : List Text) → Ends (add libc av)
  unfolding add
  add-Ends av =
      let numbered = read_number zeroed av in
      >>=-Ends (read_prob libc numbered.0 numbered.1) _ (read_prob-Ends numbered.0 numbered.1)
        (λ s. >>=-Ends (read_action libc s.0 s.1) _ (read_action-Ends s.0 s.1) body-Ends)

one_letter-Ends : (g : Globals) (c : ℕ) → Ends (one_letter g c)
unfolding one_letter
one_letter-Ends g c = ground arith

letters-Ends : (cs : Text) (g : Globals) → Ends (letters g cs)
unfolding letters
letters-Ends [] g = tt
letters-Ends (c ∷ []) g =
    let one =
      >>=-Ends {W = Globals × Bool} (one_letter g c) (λ g. done (g, false)) (one_letter-Ends g c)
        (λ g. tt) in
    ground (arith, one)
letters-Ends (c ∷ d ∷ cs) g =
    let more =
      >>=-Ends (one_letter g c) (λ g. letters g (d ∷ cs)) (one_letter-Ends g c)
        (λ g. letters-Ends (d ∷ cs) g) in
    ground (arith, more)

read_flags-Ends : (av : List Text) (g : Globals) → Ends (read_flags g av)
unfolding read_flags
read_flags-Ends [] g = tt
read_flags-Ends (word ∷ []) g =
    let one =
      >>=-Ends {W = Globals × List Text} (letters g (behind_dash word))
        (λ s. if s.1 then errx ex_usage else done (s.0, [])) (letters-Ends (behind_dash word) g)
        (λ s. ground arith) in
    ground (arith, one)
read_flags-Ends (word ∷ next ∷ av) g =
    let more =
      >>=-Ends (letters g (behind_dash word))
        (λ s.
          (let sorted = read_flags (record s.0 { do_sort = atoi next }) av in
            let more = read_flags s.0 (next ∷ av) in if s.1 then sorted else more))
        (letters-Ends (behind_dash word) g)
        (λ s. ground (
          arith,
          read_flags-Ends (next ∷ av) s.0,
          read_flags-Ends av (record s.0 { do_sort = atoi next }),
        )) in
    ground (arith, more)

dispatch-Ends :
    (libc : Libc) (g : Globals) (word : Text) (av : List Text) → Ends (dispatch libc g word av)
unfolding dispatch
dispatch-Ends libc g word av =
    let added =
      >>=-Ends (add libc av) (λ rule. done (add_rule rule)) (add-Ends libc av) (λ rule. tt) in
    ground (arith, added)

start-Ends : (libc : Libc) (g : Globals) (av : List Text) → Ends (start libc g av)
start-Ends libc g [] = tt
start-Ends libc g (word ∷ av) = dispatch-Ends libc g word av

-- Whatever the C library answers, the parsing of an argument list, up to what it asks the kernel
-- or up to its end with an error or in undefined behaviour, never runs out of the rounds that the
-- model gives its two open loops: those over the options of a rule, with a round for each word,
-- and over the ICMP types, with a round for each byte.
pub ipfw_main-Ends : (libc : Libc) (tty : Bool) (av : List Text) → Ends (ipfw_main libc tty av)
unfolding ipfw_main
ipfw_main-Ends libc tty [] = tt
ipfw_main-Ends libc tty (name ∷ av) =
    >>=-Ends (read_flags (initial tty) av) _ (read_flags-Ends av (initial tty))
      (λ s. start-Ends libc (read_pipe s.0 s.1).0 (swapped (read_pipe s.0 s.1).1))
