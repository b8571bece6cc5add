-- ===== src/Loaded/Verdict.antt =====
-- What becomes of the commands of the rules that are no forwards: sh splits them, and ipfw reads the
-- words.
use closed_bsd.Base.{
  ℕ, ◌≤◌, ◌≡◌, refl, ◌∙◌, ap, Bool, true, false, List, [], ◌∷◌, ◌++◌, arith, if◌then◌else◌, length,
}
use closed_bsd.Fault.{ok}
use closed_bsd.Ipfw.Add.{add, read_hosts}
use closed_bsd.Ipfw.Dispatch.{add_rule, ipfw_main}
use closed_bsd.Ipfw.Exits.{Exit, done, errx, ex_dataerr, ◌>>=◌}
use closed_bsd.Ipfw.Head.{read_from, read_to, check_ports}
use closed_bsd.Ipfw.Libc.{Libc}
use closed_bsd.Ipfw.Rule as Kernel
use closed_bsd.Loaded.Finish.{finish-hosted}
use closed_bsd.Loaded.Hosts.{read_from-IsHost, read_to-IsHost}
use closed_bsd.Loaded.Options.{options-words}
use closed_bsd.Loaded.Quiet.{to-IsQuiet, words-IsQuiet}
use closed_bsd.Loaded.Spec.{
  Endpoints, AreEndpoints, ArePorts, IsUsual, number_of, command_of, hosted, kernel_rule, redirect,
  verdict, clashes,
}
use closed_bsd.Loaded.Start.{ipfw_main-add, add-opening}
use closed_bsd.Rules.Command.Grammar.{
  action_words, proto_word, ports_of, flow_words, option_words, argv,
}
use closed_bsd.Rules.Command.{opening, command}
use closed_bsd.Rules.Ruleset.{
  Action, allow, deny, divert, fwd, reset, Proto, ip, tcp, udp, icmp, Ruleset,
}
use closed_bsd.Text.Words.{words}
use closed_bsd.Text.{Text, codes}

main-action :
    (libc : Libc) (tty : Bool) (a : Action) (word : Text) (av : List Text)
    → ipfw_main libc tty
        (codes "/sbin/ipfw" ∷ codes "-q" ∷ codes "add" ∷ (action_words a ++ (word ∷ av)))
      ≡ (add libc (action_words a ++ (word ∷ av)) >>= λ rule. done (add_rule rule))
main-action libc tty allow word av = ipfw_main-add libc tty _ _
main-action libc tty deny word av = ipfw_main-add libc tty _ _
main-action libc tty divert word av = ipfw_main-add libc tty _ _
main-action libc tty fwd word av = ipfw_main-add libc tty _ _
main-action libc tty reset word av = ipfw_main-add libc tty _ _

asked-if :
    (c : Bool) (rule : Kernel.Rule)
    → ((if c then errx ex_dataerr else done rule) >>= λ rule. done (add_rule rule))
      ≡ (if c then errx ex_dataerr else done (add_rule rule))
asked-if true rule = refl
asked-if false rule = refl

-- A port list is one port at most, and only TCP and UDP have one.
ports-length : (words : List Text) (ports : List ℕ) → ArePorts words ports → length ports ≤ 1
ports-length [] [] h = omega arith
ports-length (word ∷ []) (port ∷ []) h = omega arith
ports-length [] (_ ∷ _) h = absurd h
ports-length (_ ∷ _ ∷ _) ports h = absurd h
ports-length (_ ∷ []) [] h = absurd h
ports-length (_ ∷ []) (_ ∷ _ ∷ _) h = absurd h

no_ports : (ports : List ℕ) → ArePorts [] ports → ports ≡ []
no_ports [] h = refl
no_ports (_ ∷ _) h = absurd h

check_ports-hosted :
    (a : Action) (p : Proto) (e : Endpoints) (sp dp : Text) (av : List Text)
    → ArePorts (ports_of p sp) e.src_ports
    → ArePorts (ports_of p dp) e.dst_ports
    → check_ports (hosted a p e) av ≡ done (hosted a p e, av)
unfolding check_ports
check_ports-hosted a tcp e sp dp av h k = refl
check_ports-hosted a udp e sp dp av h k = refl
check_ports-hosted a ip e sp dp av h k =
    rw (no_ports e.src_ports h, check_ports) (rw (no_ports e.dst_ports k) refl)
check_ports-hosted a icmp e sp dp av h k =
    rw (no_ports e.src_ports h, check_ports) (rw (no_ports e.dst_ports k) refl)

module _ (libc : Libc) (r : Ruleset) (e : Endpoints) (usual : IsUsual libc)
    (ends : AreEndpoints libc r e) where
  abbrev named : Kernel.Rule
  named = record Kernel.zeroed { command = command_of r.action; prot = number_of r.proto }

  abbrev behind_dst : List Text
  behind_dst = flow_words r.ifs ++ option_words (codes "5") r.proto r.option

  abbrev behind_src : List Text
  behind_src = codes "to" ∷ r.dst ∷ (ports_of r.proto r.dst_port ++ behind_dst)

  from_host :
      read_from libc named (codes "from" ∷ r.src ∷ (ports_of r.proto r.src_port ++ behind_src))
      ≡ done (record named { src = e.src; src_ports = e.src_ports }, behind_src)
  from_host =
      read_from-IsHost libc named r.src e.src (ports_of r.proto r.src_port) e.src_ports behind_src
        (omega (arith, usual.room)) ends.src_host ends.src_port
        (to-IsQuiet libc usual (number_of r.proto)
          (r.dst ∷ (ports_of r.proto r.dst_port ++ behind_dst)))

  to_host :
      read_to libc (record named { src = e.src; src_ports = e.src_ports }) behind_src
      ≡ done (hosted r.action r.proto e, behind_dst)
  to_host =
      read_to-IsHost libc (record named { src = e.src; src_ports = e.src_ports }) r.dst e.dst
        (ports_of r.proto r.dst_port) e.dst_ports behind_dst
        (omega (arith, usual.room, ports-length _ _ ends.src_port)) ends.dst_host ends.dst_port
        (words-IsQuiet libc usual (number_of r.proto) r.ifs r.proto r.option)

  -- ipfw reads the addresses, the ports and the options.
  read_hosts-argv :
      read_hosts libc named (codes "from" ∷ r.src ∷ (ports_of r.proto r.src_port ++ behind_src))
      ≡ (if clashes r.proto r.option e then errx ex_dataerr else done (kernel_rule redirect r e))
  unfolding read_hosts
  read_hosts-argv =
      rw (from_host, read_hosts)
        (rw to_host (
          rw
            (check_ports-hosted r.action r.proto e r.src_port r.dst_port behind_dst ends.src_port
              ends.dst_port)
            (rw (options-words libc r.action e r.ifs usual.types r.proto r.option)
              (finish-hosted libc r.action e r.ifs r.proto r.option))))

  pub ipfw_main-argv :
      {o : Text}
      → (tty : Bool) → opening r.proto r.action ≡ ok o
      → ipfw_main libc tty (argv (codes "5") r) ≡ verdict r e
  ipfw_main-argv tty h =
      main-action libc tty r.action (proto_word r.proto) _
      ∙ ap (λ (m : Exit Kernel.Rule). m >>= λ rule. done (add_rule rule))
          (add-opening libc r.proto r.action _ usual h ∙ read_hosts-argv)
      ∙ asked-if (clashes r.proto r.option e) (kernel_rule redirect r e)
