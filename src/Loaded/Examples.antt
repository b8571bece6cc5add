-- ===== src/Loaded/Examples.antt =====
-- Concrete rules, forwards and argument lists.
use closed_bsd.Base.{arith, ◌≡◌, ◌≢◌, refl, inl, true, [], ◌∷◌, none, some, arith}
use closed_bsd.Fault.{ok}
use closed_bsd.Ipfw.Address.{fill_ip, fill_host, lookup_host}
use closed_bsd.Ipfw.Numbers.{is_digit, starts_with_digit}
use closed_bsd.Ipfw.Ends.{ipfw_main-Ends}
use closed_bsd.Ipfw.Rule.{Interface, by_name}
use closed_bsd.Loaded.Spec.{all_digits}
use closed_bsd.Ipfw.Numbers.{magnitude, sign, skip_spaces, digit_in, to_int, digits, atoi}
use closed_bsd.Loaded.Nat.{IsDevice, nat_rule, divert_via-nat_rule}
use closed_bsd.Nat.Reload.{divert_via}
use closed_bsd.Ipfw.Dispatch.{Request, add_rule, ipfw_main}
use closed_bsd.Ipfw.Exits.{done, Ends}
use closed_bsd.Ipfw.Iface.{same_text}
use closed_bsd.Rules.Command.Forward.{IsSpokenFwd}
use closed_bsd.Rules.Command.{fwd_command}
use closed_bsd.Loaded.Forward.{IsUnknown}
use closed_bsd.Loaded.Refused.{fwd_command-refused}
use closed_bsd.Rules.Ruleset.{fwd, any, tcp, Ruleset}
use closed_bsd.World.{World, rules}
use closed_bsd.Text.Token.{saved}
use closed_bsd.Text.Words.{words}
use closed_bsd.Text.{Text, codes, contains, starts_with}
use closed_bsd.Ipfw.Sane.Ports.{HasWidths}
use closed_bsd.Ipfw.Sane.Request.{ipfw_main-IsSane}
use closed_bsd.Ipfw.Sane.{IsSane}
use closed_bsd.Loaded.Lab.{known_proto, lab, lab-IsUsual, known_host}

abbrev ed0 : Interface
ed0 = by_name (codes "ed") (some 0)

ed0-IsDevice : IsDevice lab (codes "ed0") (codes "ed") 0
unfolding contains all_digits same_text starts_with_digit is_digit magnitude sign skip_spaces
    digit_in to_int digits atoi
ed0-IsDevice = record {
  first = b'0';
  others = [];
  splits = refl;
  no_unit = refl;
  in_digits = refl;
  number = refl;
  short = omega arith;
  plain = refl;
  word = record { no_blank = refl; some_byte = λ e. cc };
  not_any = refl;
  no_digit = refl;
}

divert_via-nat_rule_example :
    ipfw_main lab true (words (divert_via (codes "ed0"))) ≡ done (add_rule (nat_rule ed0))
divert_via-nat_rule_example =
    divert_via-nat_rule lab true (codes "ed0") (codes "ed") 0 lab-IsUsual ed0-IsDevice

ipfw_main-Ends_example : Ends (
    ipfw_main lab true (
      codes "ipfw"
      ∷ codes "add"
      ∷ codes "deny"
      ∷ codes "icmp"
      ∷ codes "from"
      ∷ codes "any"
      ∷ codes "to"
      ∷ codes "any"
      ∷ codes "icmptypes"
      ∷ codes "8,0"
      ∷ []))
ipfw_main-Ends_example = ipfw_main-Ends lab true (
    codes "ipfw"
    ∷ codes "add"
    ∷ codes "deny"
    ∷ codes "icmp"
    ∷ codes "from"
    ∷ codes "any"
    ∷ codes "to"
    ∷ codes "any"
    ∷ codes "icmptypes"
    ∷ codes "8,0"
    ∷ [])

-- A forward from anywhere without a source port, as a user fills in the form.
abbrev web_forward : Ruleset
web_forward = record {
  action = fwd;
  proto = tcp;
  ifs = any;
  option = 0;
  src = codes "any";
  dst = codes "any";
  src_port = [];
  dst_port = codes "80";
  other_a = codes "10.0.0.1";
  other_b = codes "8080";
}

web_forward-IsSpokenFwd : IsSpokenFwd web_forward
unfolding contains
web_forward-IsSpokenFwd = record {
  src_word = record { no_blank = refl; some_byte = λ e. cc };
  dst_word = record { no_blank = refl; some_byte = λ e. cc };
  src_port_no_blank = refl;
  dst_port_no_blank = refl;
  other_a_no_blank = refl;
  other_b_no_blank = refl;
  plain = refl;
}

anyto-IsUnknown : IsUnknown lab (codes "anyto")
unfolding starts_with fill_ip fill_host lookup_host known_host same_text saved
anyto-IsUnknown = record { not_not = refl; not_me = refl; unread = refl }

-- ipfw takes "anyto" for the name of a host.
fwd_command-refused_example :
    (cmd : Text) × (fwd_command web_forward ≡ ok cmd)
    × ((request : Request) → ipfw_main lab true (words cmd) ≢ done request)
fwd_command-refused_example =
    fwd_command-refused lab true web_forward lab-IsUsual (inl refl) (omega arith)
      web_forward-IsSpokenFwd anyto-IsUnknown

abbrev empty_world : World
empty_world = record {
  content = λ f. elim f [ rules ↦ some [] | _ ↦ none ];
  opens = λ f. true;
  ran = [];
}

lab-HasWidths : HasWidths lab
unfolding known_proto
lab-HasWidths = record {
  services = λ name proto port e. cc;
  protocols = λ name proto e. ground arith;
}

ipfw_main-IsSane_example : IsSane lab (nat_rule ed0)
ipfw_main-IsSane_example =
    ipfw_main-IsSane lab true (words (divert_via (codes "ed0"))) (nat_rule ed0) lab-HasWidths
      (divert_via-nat_rule lab true (codes "ed0") (codes "ed") 0 lab-IsUsual ed0-IsDevice)
