-- ===== src/Loaded/Numeral.antt =====
-- A port in digits is read as one port.
use closed_bsd.Base.{
  ℕ, ◌<◌, ◌≡◌, refl, ◌∙◌, ap, Bool, true, false, not, ◌&&◌, ◌||◌, List, [], ◌∷◌, ◌++◌, none, some,
  arith, ◌==◌, ltb, length, take-eq_of_le,
}
use closed_bsd.Ipfw.Exits.{done}
use closed_bsd.Ipfw.Fields.{pieces}
use closed_bsd.Ipfw.Head.{is_ports, read_ports}
use closed_bsd.Ipfw.Libc.{Libc}
use closed_bsd.Ipfw.Numbers.{is_digit, starts_with_digit}
use closed_bsd.Ipfw.Ports.{
  first_port, port_in, lookup_port, must_port, add_port, scan, fill_list, fill_port,
}
use closed_bsd.Ipfw.Rule.{listed}
use closed_bsd.Loaded.Spec.{all_digits, IsNumeral}
use closed_bsd.Text.{Text}

-- A byte that neither separates ports nor quotes.
is_plain : ℕ → Bool
is_plain c = not (c == b',' || c == b'-' || c == b':' || c == b'\\')

unfoldable pub plain : Text → Bool
unfolding is_plain
plain [] = true
plain (c ∷ cs) = is_plain c && plain cs

abbrev IsApart : ℕ → Type 0
IsApart c =
    ((c == b',') ≡ false) × ((c == b'-') ≡ false) × ((c == b':') ≡ false) × ((c == b'\\') ≡ false)

plain-IsApart : (c : ℕ) (cs : Text) → plain (c ∷ cs) ≡ true → IsApart c
unfolding plain is_plain
plain-IsApart c cs h = (ground arith, ground arith, ground arith, ground arith)

plain-rest : (c : ℕ) (cs : Text) → plain (c ∷ cs) ≡ true → plain cs ≡ true
unfolding plain
plain-rest c cs h = ground arith

pub plain-append : (s t : Text) → plain s ≡ true → plain t ≡ true → plain (s ++ t) ≡ true
unfolding plain
plain-append [] t h k = k
plain-append (c ∷ s) t h k = ground (arith, plain-append s t)

digit-plain : (c : ℕ) → is_digit c ≡ true → is_plain c ≡ true
unfolding is_digit is_plain
digit-plain c h = ground arith

pub digits-plain : (word : Text) → all_digits word ≡ true → plain word ≡ true
unfolding plain all_digits
digits-plain [] h = refl
digits-plain (c ∷ cs) h = ground (arith, digits-plain cs, digit-plain c)

pub first_port-plain : (word : Text) → plain word ≡ true → first_port false word ≡ word
unfolding first_port
first_port-plain [] h = refl
first_port-plain (c ∷ []) h = rw (plain-IsApart c [] h).0 refl
first_port-plain (c ∷ d ∷ cs) h =
    let apart = plain-IsApart c (d ∷ cs) h in
    rw (apart.3, apart.0, first_port)
      (ap (◌∷◌ c) (first_port-plain (d ∷ cs) (plain-rest c (d ∷ cs) h)))

pub scan-plain : (word : Text) → plain word ≡ true → scan word ≡ (word, none)
unfolding scan
scan-plain [] h = refl
scan-plain (c ∷ []) h = let apart = plain-IsApart c [] h in rw (apart.0, apart.1, apart.2) refl
scan-plain (c ∷ d ∷ cs) h =
    let apart = plain-IsApart c (d ∷ cs) h in
    rw (apart.0, apart.1, apart.2, apart.3, scan)
      (rw (scan-plain (d ∷ cs) (plain-rest c (d ∷ cs) h)) refl)

pub pieces-plain : (word : Text) → plain word ≡ true → pieces word ≡ word ∷ []
unfolding pieces
pieces-plain [] h = refl
pieces-plain (c ∷ cs) h = rw ((plain-IsApart c cs h).0, pieces-plain cs (plain-rest c cs h)) refl

pub nonempty-digit :
    (word : Text)
    → ltb 0 (length word) ≡ true
    → all_digits word ≡ true
    → starts_with_digit word ≡ true
unfolding starts_with_digit
nonempty-digit [] h k = cc
nonempty-digit (c ∷ cs) h k = (unfold all_digits in ground arith)

module _ (libc : Libc) (word : Text) (port : ℕ) (h : IsNumeral word port) where
  port_in-IsNumeral : (prot : ℕ) → port_in libc prot word ≡ some port
  unfolding port_in
  port_in-IsNumeral prot = rw (h.value, port_in) (ground (arith, h.some_byte, h.is_port))

  lookup_port-IsNumeral : (prot : ℕ) → lookup_port libc word prot false ≡ some port
  unfolding lookup_port
  lookup_port-IsNumeral prot =
      ap (port_in libc prot) (
        ap (first_port false) (take-eq_of_le 31 word h.short)
        ∙ first_port-plain word (digits-plain word h.in_digits))
      ∙ port_in-IsNumeral prot

  must_port-IsNumeral : (prot : ℕ) → must_port libc word prot ≡ done port
  unfolding must_port
  must_port-IsNumeral prot = rw (lookup_port-IsNumeral prot, must_port) refl

  fill_port-IsNumeral :
      (before prot : ℕ)
      → before < libc.max_ports
      → fill_port libc before prot word ≡ done (port ∷ [], listed)
  unfolding fill_port fill_list add_port
  fill_port-IsNumeral before prot n =
      rw (scan-plain word (digits-plain word h.in_digits), fill_port)
        (rw (pieces-plain word (digits-plain word h.in_digits))
          (rw (must_port-IsNumeral prot, fill_list, add_port) (ground arith)))

  is_ports-IsNumeral : (prot : ℕ) → is_ports libc prot word ≡ true
  unfolding is_ports starts_with_digit all_digits
  is_ports-IsNumeral prot = rw (nonempty-digit word h.some_byte h.in_digits, is_ports) refl

  pub read_ports-IsNumeral :
      (before prot : ℕ) (av : List Text)
      → before < libc.max_ports
      → read_ports libc before prot (word ∷ av) ≡ done (port ∷ [], listed, av)
  unfolding read_ports
  read_ports-IsNumeral before prot av n =
      rw (is_ports-IsNumeral prot, fill_port-IsNumeral before prot n, read_ports) refl
