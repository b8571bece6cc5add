-- ===== src/Loaded/Quiet.antt =====
-- The keywords behind an address are no ports.
use closed_bsd.Base.{ℕ, ◌≡◌, refl, false, List, ◌∷◌, ◌++◌, arith}
use closed_bsd.Ipfw.Head.{is_ports}
use closed_bsd.Ipfw.Libc.{Libc}
use closed_bsd.Ipfw.Numbers.{
  starts_with_digit, is_digit, strtoul, skip_spaces, sign, any_base, magnitude, digit_in,
}
use closed_bsd.Ipfw.Ports.{first_port, port_in, lookup_port}
use closed_bsd.Loaded.Hosts.{IsQuiet}
use closed_bsd.Loaded.Spec.{IsUsual, NoService}
use closed_bsd.Rules.Command.Grammar.{flow_words, option_words}
use closed_bsd.Rules.Ruleset.{Proto, ip, tcp, udp, icmp, Flow, any, incoming, outgoing}
use closed_bsd.Text.{Text, codes}

module _ (libc : Libc) (prot : ℕ) where
  quiet_to : NoService libc (codes "to") → is_ports libc prot (codes "to") ≡ false
  unfolding is_ports lookup_port port_in first_port starts_with_digit is_digit strtoul skip_spaces
      sign any_base magnitude digit_in
  quiet_to h = rw (h _) refl

  quiet_in : NoService libc (codes "in") → is_ports libc prot (codes "in") ≡ false
  unfolding is_ports lookup_port port_in first_port starts_with_digit is_digit strtoul skip_spaces
      sign any_base magnitude digit_in
  quiet_in h = rw (h _) refl

  quiet_out : NoService libc (codes "out") → is_ports libc prot (codes "out") ≡ false
  unfolding is_ports lookup_port port_in first_port starts_with_digit is_digit strtoul skip_spaces
      sign any_base magnitude digit_in
  quiet_out h = rw (h _) refl

  quiet_ipoptions :
      NoService libc (codes "ipoptions") → is_ports libc prot (codes "ipoptions") ≡ false
  unfolding is_ports lookup_port port_in first_port starts_with_digit is_digit strtoul skip_spaces
      sign any_base magnitude digit_in
  quiet_ipoptions h = rw (h _) refl

  quiet_setup : NoService libc (codes "setup") → is_ports libc prot (codes "setup") ≡ false
  unfolding is_ports lookup_port port_in first_port starts_with_digit is_digit strtoul skip_spaces
      sign any_base magnitude digit_in
  quiet_setup h = rw (h _) refl

  quiet_established :
      NoService libc (codes "established") → is_ports libc prot (codes "established") ≡ false
  unfolding is_ports lookup_port port_in first_port starts_with_digit is_digit strtoul skip_spaces
      sign any_base magnitude digit_in
  quiet_established h = rw (h _) refl

  quiet_frag : NoService libc (codes "frag") → is_ports libc prot (codes "frag") ≡ false
  unfolding is_ports lookup_port port_in first_port starts_with_digit is_digit strtoul skip_spaces
      sign any_base magnitude digit_in
  quiet_frag h = rw (h _) refl

  quiet_icmptypes :
      NoService libc (codes "icmptypes") → is_ports libc prot (codes "icmptypes") ≡ false
  unfolding is_ports lookup_port port_in first_port starts_with_digit is_digit strtoul skip_spaces
      sign any_base magnitude digit_in
  quiet_icmptypes h = rw (h _) refl

  quiet_via : NoService libc (codes "via") → is_ports libc prot (codes "via") ≡ false
  unfolding is_ports lookup_port port_in first_port starts_with_digit is_digit strtoul skip_spaces
      sign any_base magnitude digit_in
  quiet_via h = rw (h _) refl

module _ (libc : Libc) (usual : IsUsual libc) (prot : ℕ) where
  option_words-IsQuiet : (p : Proto) (o : ℕ) → IsQuiet libc prot (option_words (codes "5") p o)
  option_words-IsQuiet ip o = ground (arith, quiet_ipoptions libc prot usual.no_ipoptions)
  option_words-IsQuiet tcp o = ground (
    arith,
    quiet_setup libc prot usual.no_setup,
    quiet_established libc prot usual.no_established,
    quiet_frag libc prot usual.no_frag,
  )
  option_words-IsQuiet udp o = tt
  option_words-IsQuiet icmp o = ground (arith, quiet_icmptypes libc prot usual.no_icmptypes)

  pub to-IsQuiet : (av : List Text) → IsQuiet libc prot (codes "to" ∷ av)
  to-IsQuiet av = quiet_to libc prot usual.no_to

  pub words-IsQuiet :
      (f : Flow) (p : Proto) (o : ℕ)
      → IsQuiet libc prot (flow_words f ++ option_words (codes "5") p o)
  words-IsQuiet any p o = option_words-IsQuiet p o
  words-IsQuiet incoming p o = quiet_in libc prot usual.no_in
  words-IsQuiet outgoing p o = quiet_out libc prot usual.no_out

  pub via-IsQuiet : (av : List Text) → IsQuiet libc prot (codes "via" ∷ av)
  via-IsQuiet av = quiet_via libc prot usual.no_via
