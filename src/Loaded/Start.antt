-- ===== src/Loaded/Start.antt =====
-- From the argument list to the protocol of the rule.
use closed_bsd.Base.{◌≡◌, refl, ◌∙◌, Bool, false, List, ◌∷◌, ◌++◌}
use closed_bsd.Ipfw.Action.{read_number, read_prob, read_action, by_keyword, diverted}
use closed_bsd.Ipfw.Add.{add, goes_on, read_body, read_hosts}
use closed_bsd.Ipfw.Dispatch.{add_rule, read_flags, letters, one_letter, dispatch, ipfw_main}
use closed_bsd.Ipfw.Exits.{done, ◌>>=◌}
use closed_bsd.Ipfw.Head.{read_log, read_logamount, read_proto, check_reset, sends_rst}
use closed_bsd.Ipfw.Libc.{Libc}
use closed_bsd.Ipfw.Numbers.{
  starts_with_digit, is_digit, atoi, sign, skip_spaces, magnitude, digits, digit_in, strtoul,
  any_base, to_ulong,
}
use closed_bsd.Ipfw.Rule.{Rule, zeroed}
use closed_bsd.Fault.{ok}
use closed_bsd.Loaded.Spec.{IsUsual, command_of, number_of}
use closed_bsd.Rules.Command.{opening}
use closed_bsd.Rules.Command.Grammar.{action_words, proto_word}
use closed_bsd.Rules.Ruleset.{Action, allow, deny, divert, fwd, reset, Proto, ip, tcp, udp, icmp}
use closed_bsd.Text.{Text, codes, starts_with}

-- "-q add" hands the rest to `add`.
pub ipfw_main-add :
    (libc : Libc) (tty : Bool) (word : Text) (av : List Text)
    → ipfw_main libc tty (codes "/sbin/ipfw" ∷ codes "-q" ∷ codes "add" ∷ word ∷ av)
      ≡ (add libc (word ∷ av) >>= λ rule. done (add_rule rule))
unfolding ipfw_main read_flags letters one_letter dispatch starts_with starts_with_digit
ipfw_main-add libc tty word av = refl

add-allow :
    (libc : Libc) (word : Text) (av : List Text)
    → add libc (codes "allow" ∷ word ∷ av)
      ≡ read_body libc (record zeroed { command = command_of allow }) (word ∷ av)
unfolding add read_number starts_with_digit is_digit read_prob read_action by_keyword goes_on
    starts_with
add-allow libc word av = refl

add-deny :
    (libc : Libc) (word : Text) (av : List Text)
    → add libc (codes "deny" ∷ word ∷ av)
      ≡ read_body libc (record zeroed { command = command_of deny }) (word ∷ av)
unfolding add read_number starts_with_digit is_digit read_prob read_action by_keyword goes_on
    starts_with
add-deny libc word av = refl

add-reset :
    (libc : Libc) (word : Text) (av : List Text)
    → add libc (codes "reset" ∷ word ∷ av)
      ≡ read_body libc (record zeroed { command = command_of reset }) (word ∷ av)
unfolding add read_number starts_with_digit is_digit read_prob read_action by_keyword goes_on
    starts_with
add-reset libc word av = refl

add-divert :
    (libc : Libc) (word : Text) (av : List Text)
    → add libc (codes "divert" ∷ codes "8668" ∷ word ∷ av)
      ≡ read_body libc (record zeroed { command = command_of divert }) (word ∷ av)
unfolding add read_number starts_with_digit is_digit read_prob read_action by_keyword goes_on
    starts_with diverted strtoul skip_spaces sign any_base magnitude digits digit_in to_ulong
add-divert libc word av = refl

module _ (libc : Libc) (usual : IsUsual libc) (rule : Rule) (av : List Text) where
  body-ip :
      sends_rst rule.command ≡ false
      → read_body libc rule (codes "ip" ∷ av)
        ≡ read_hosts libc (record rule { prot = number_of ip }) av
  unfolding read_body read_log read_logamount read_proto check_reset starts_with atoi skip_spaces
      sign magnitude digit_in is_digit
  body-ip h = rw (usual.proto_ip, h) refl

  pub body-udp :
      sends_rst rule.command ≡ false
      → read_body libc rule (codes "udp" ∷ av)
        ≡ read_hosts libc (record rule { prot = number_of udp }) av
  unfolding read_body read_log read_logamount read_proto check_reset starts_with atoi skip_spaces
      sign magnitude digit_in is_digit
  body-udp h = rw (usual.proto_udp, h) refl

  body-icmp :
      sends_rst rule.command ≡ false
      → read_body libc rule (codes "icmp" ∷ av)
        ≡ read_hosts libc (record rule { prot = number_of icmp }) av
  unfolding read_body read_log read_logamount read_proto check_reset starts_with atoi skip_spaces
      sign magnitude digit_in is_digit
  body-icmp h = rw (usual.proto_icmp, h) refl

  pub body-tcp :
      read_body libc rule (codes "tcp" ∷ av)
      ≡ read_hosts libc (record rule { prot = number_of tcp }) av
  unfolding read_body read_log read_logamount read_proto check_reset starts_with atoi skip_spaces
      sign magnitude digit_in is_digit
  body-tcp = rw usual.proto_tcp refl

-- The action and the protocol, of the openings that there are.
pub add-opening :
    (libc : Libc) (p : Proto) (a : Action) {o : Text} (av : List Text)
    → IsUsual libc
    → opening p a ≡ ok o
    → add libc (action_words a ++ (proto_word p ∷ av))
      ≡ read_hosts libc (record zeroed { command = command_of a; prot = number_of p }) av
unfolding sends_rst opening
add-opening libc ip allow av u h = add-allow libc _ av ∙ body-ip libc u _ av refl
add-opening libc ip deny av u h = add-deny libc _ av ∙ body-ip libc u _ av refl
add-opening libc ip divert av u h = add-divert libc _ av ∙ body-ip libc u _ av refl
add-opening libc tcp allow av u h = add-allow libc _ av ∙ body-tcp libc u _ av
add-opening libc tcp reset av u h = add-reset libc _ av ∙ body-tcp libc u _ av
add-opening libc tcp deny av u h = add-deny libc _ av ∙ body-tcp libc u _ av
add-opening libc udp allow av u h = add-allow libc _ av ∙ body-udp libc u _ av refl
add-opening libc udp deny av u h = add-deny libc _ av ∙ body-udp libc u _ av refl
add-opening libc icmp allow av u h = add-allow libc _ av ∙ body-icmp libc u _ av refl
add-opening libc icmp deny av u h = add-deny libc _ av ∙ body-icmp libc u _ av refl
add-opening libc ip fwd av u h = cc
add-opening libc ip reset av u h = cc
add-opening libc tcp divert av u h = cc
add-opening libc tcp fwd av u h = cc
add-opening libc udp divert av u h = cc
add-opening libc udp fwd av u h = cc
add-opening libc udp reset av u h = cc
add-opening libc icmp divert av u h = cc
add-opening libc icmp fwd av u h = cc
add-opening libc icmp reset av u h = cc
