-- ===== src/Loaded/Nat.antt =====
-- What ipfw makes of the rule that diverts the packets of a device to natd, with which
-- `load_ruleset` (closedbsd/init/rules.c) begins.
use closed_bsd.Base.{
  ◌≡◌, refl, ◌∙◌, ap, Bool, true, false, List, [], ◌∷◌, append-nil, arith, sym, ℕ, ◌++◌, ◌-◌, ◌<◌,
  ◌==◌, ◌||◌, ◌&&◌, not, some, length, take-eq_of_le,
}
use closed_bsd.Ipfw.Action.{read_number, read_prob, read_action, by_keyword, diverted}
use closed_bsd.Ipfw.Add.{
  add, goes_on, read_body, read_hosts, both_ways, check_via, check_frag, read_limit, finish,
}
use closed_bsd.Ipfw.Address.{fill_ip}
use closed_bsd.Ipfw.Dispatch.{add_rule, ipfw_main}
use closed_bsd.Ipfw.Exits.{Exit, done, ◌>>=◌}
use closed_bsd.Ipfw.Head.{read_log, read_logamount, read_proto, check_reset, sends_rst, check_ports}
use closed_bsd.Ipfw.Iface.{before_unit, unit_of, same_text, named, fill_iface, byname}
use closed_bsd.Ipfw.Libc.{Libc}
use closed_bsd.Ipfw.Numbers.{
  starts_with_digit, is_digit, atoi, sign, skip_spaces, magnitude, digits, digit_in, strtoul,
  any_base, to_int, to_ulong,
}
use closed_bsd.Ipfw.Options.{options, option_step, via_option}
use closed_bsd.Ipfw.Rule as Kernel
use closed_bsd.Loaded.Hosts.{read_from-IsHost, read_to-IsHost}
use closed_bsd.Loaded.Quiet.{to-IsQuiet, via-IsQuiet}
use closed_bsd.Loaded.Spec.{IsUsual, IsHost, all_digits}
use closed_bsd.Loaded.Start.{ipfw_main-add}
use closed_bsd.Nat.Reload.{divert_via}
use closed_bsd.Text.Words.{words, is_plain, IsWord, words-IsWord}
use closed_bsd.Text.{Text, codes, starts_with}

-- Rule 85: packets of this interface, in both directions, go to the port of natd.
abbrev pub nat_rule : Kernel.Interface → Kernel.Rule
nat_rule interface = record Kernel.zeroed {
  fw_number = 85;
  command = Kernel.divert 8668;
  incoming = true;
  outgoing = true;
  in_if = interface;
  out_if = interface;
  iiface = true;
  oiface = true;
  iifname = true;
  oifname = true;
}

-- No byte of a text ends the name of an interface.
abbrev pub has_no_unit : Text → Bool
has_no_unit [] = true
has_no_unit (c ∷ cs) = not (is_digit c || c == b'*') && has_no_unit cs

-- An interface: a name without a digit or an asterisk, and the number of its unit in digits. It is
-- one word that means nothing to sh, is not "any", does not start with a digit, and fits into the
-- field of the kernel's rule.
pub record IsDevice (libc : Libc) (device name : Text) (unit : ℕ) : Type 0 where
  pub first : ℕ
  pub others : Text
  pub splits : device ≡ name ++ first ∷ others
  pub no_unit : has_no_unit name ≡ true
  pub in_digits : all_digits (first ∷ others) ≡ true
  pub number : atoi (first ∷ others) ≡ unit
  pub short : length device < libc.if_name_size
  pub plain : is_plain device ≡ true
  pub word : IsWord device
  pub not_any : same_text device (codes "any") ≡ false
  pub no_digit : starts_with_digit device ≡ false

any-IsHost : (libc : Libc) → IsHost libc (codes "any") (0, 0)
unfolding starts_with fill_ip
any-IsHost libc = record { not_not = refl; not_me = refl; read = refl }

before_unit-append :
    (name : Text) (c : ℕ) (cs : Text)
    → has_no_unit name ≡ true
    → is_digit c ≡ true
    → before_unit (name ++ c ∷ cs) ≡ (name, c ∷ cs)
unfolding before_unit
before_unit-append [] c cs h d = rw d refl
before_unit-append (x ∷ name) c cs h d =
    let (other, rest) = apart (is_digit x || x == b'*') (has_no_unit name) h in
    rw (before_unit-append name c cs rest d) (rw other refl)
  where
    apart : (a b : Bool) → (not a && b) ≡ true → (a ≡ false) × (b ≡ true)
    apart a b e = (ground arith, ground arith)

unit_of-digit : (c : ℕ) (cs : Text) → is_digit c ≡ true → unit_of (c ∷ cs) ≡ some (atoi (c ∷ cs))
unfolding unit_of is_digit
unit_of-digit c cs d = ground arith

all_digits-first : (c : ℕ) (cs : Text) → all_digits (c ∷ cs) ≡ true → is_digit c ≡ true
unfolding all_digits
all_digits-first c cs h = ground arith

named-IsDevice :
    (libc : Libc) (device name : Text) (unit : ℕ)
    → IsDevice libc device name unit
    → named libc device ≡ Kernel.by_name name (some unit)
unfolding named
named-IsDevice libc device name unit h =
    let digit = all_digits-first h.first h.others h.in_digits in
    rw (take-eq_of_le (libc.if_name_size - 1) device (omega (arith, h.short)), h.splits)
      (rw (before_unit-append name h.first h.others h.no_unit digit)
        (rw (unit_of-digit h.first h.others digit, h.number) refl))

fill_iface-IsDevice :
    (libc : Libc) (device name : Text) (unit : ℕ) (av : List Text)
    → IsDevice libc device name unit
    → fill_iface libc (device ∷ av) ≡ done (named libc device)
unfolding fill_iface
fill_iface-IsDevice libc device name unit av h = rw (h.not_any, fill_iface) (rw (h.no_digit) refl)

abbrev started : Kernel.Rule
started = record Kernel.zeroed { fw_number = 85; command = Kernel.divert 8668 }

add-started :
    (libc : Libc) (av : List Text)
    → add libc (codes "85" ∷ codes "divert" ∷ codes "8668" ∷ codes "ip" ∷ av)
      ≡ read_body libc started (codes "ip" ∷ av)
unfolding add read_number starts_with_digit is_digit read_prob read_action by_keyword goes_on
    starts_with diverted strtoul skip_spaces sign any_base magnitude digits digit_in to_ulong atoi
    to_int
add-started libc av = refl

body-started :
    (libc : Libc) (av : List Text)
    → IsUsual libc
    → read_body libc started (codes "ip" ∷ av) ≡ read_hosts libc started av
unfolding read_body read_log read_logamount read_proto check_reset sends_rst starts_with atoi
    skip_spaces sign magnitude digit_in is_digit
body-started libc av usual = rw usual.proto_ip refl

module _ (libc : Libc) (device name : Text) (unit : ℕ) (usual : IsUsual libc)
    (h : IsDevice libc device name unit) where
  via-device :
      options libc 2
        (record { rule = started; saw_xmrc = false; saw_via = false })
        (codes "via" ∷ device ∷ [])
      ≡ done (record {
        rule = record started {
          in_if = named libc device;
          out_if = named libc device;
          iifname = true;
          oifname = true;
        };
        saw_xmrc = false;
        saw_via = true;
      })
  unfolding options option_step starts_with via_option named byname
  via-device = rw (fill_iface-IsDevice libc device name unit [] h) refl

  hosts-started :
      read_hosts libc started
        (codes "from" ∷ codes "any" ∷ codes "to" ∷ codes "any" ∷ codes "via" ∷ device ∷ [])
      ≡ done (nat_rule (named libc device))
  unfolding read_hosts check_ports finish both_ways check_via check_frag read_limit
  hosts-started =
      rw
        (
          read_from-IsHost libc started (codes "any") (0, 0) [] []
              (codes "to" ∷ codes "any" ∷ codes "via" ∷ device ∷ []) (omega (arith, usual.room))
              (any-IsHost libc) tt
              (to-IsQuiet libc usual 0 (codes "any" ∷ codes "via" ∷ device ∷ [])),
          read_hosts,
        )
        (rw
          (read_to-IsHost libc started (codes "any") (0, 0) [] [] (codes "via" ∷ device ∷ [])
            (omega (arith, usual.room)) (any-IsHost libc) tt
            (via-IsQuiet libc usual 0 (device ∷ [])))
          (rw via-device refl))

words-divert_via :
    (device : Text)
    → IsWord device
    → words (divert_via device)
      ≡ codes "/sbin/ipfw"
        ∷ codes "-q"
        ∷ codes "add"
        ∷ codes "85"
        ∷ codes "divert"
        ∷ codes "8668"
        ∷ codes "ip"
        ∷ codes "from"
        ∷ codes "any"
        ∷ codes "to"
        ∷ codes "any"
        ∷ codes "via"
        ∷ device
        ∷ []
unfolding words
words-divert_via device h =
    ap behind_via (sym (ap words (append-nil device)) ∙ words-IsWord device [] h tt)
  where
    behind_via : List Text → List Text
    behind_via ws =
        codes "/sbin/ipfw"
        ∷ codes "-q"
        ∷ codes "add"
        ∷ codes "85"
        ∷ codes "divert"
        ∷ codes "8668"
        ∷ codes "ip"
        ∷ codes "from"
        ∷ codes "any"
        ∷ codes "to"
        ∷ codes "any"
        ∷ codes "via"
        ∷ ws

-- The command with which load_ruleset begins under NAT becomes rule 85 of the kernel: the packets
-- that cross the named device and unit, in either direction, go to the divert port 8668, whatever
-- their addresses. The device is a name and a unit in digits, as in "ed0", of letters, digits and
-- !%+,-./:@_; it is not "any", starts with no digit and fits into the rule. The protocol and
-- service files are the usual ones.
pub divert_via-nat_rule :
    (libc : Libc) (tty : Bool) (device name : Text) (unit : ℕ)
    → IsUsual libc
    → IsDevice libc device name unit
    → ipfw_main libc tty (words (divert_via device))
      ≡ done (add_rule (nat_rule (Kernel.by_name name (some unit))))
divert_via-nat_rule libc tty device name unit usual h =
    ap (ipfw_main libc tty) (words-divert_via device h.word)
    ∙ ipfw_main-add libc tty (codes "85") _
    ∙ ap (λ (m : Exit Kernel.Rule). m >>= λ rule. done (add_rule rule))
        (add-started libc _
          ∙ body-started libc _ usual
          ∙ hosts-started libc device name unit usual h
          ∙ ap (λ interface. done (nat_rule interface)) (named-IsDevice libc device name unit h))
