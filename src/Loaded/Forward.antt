-- ===== src/Loaded/Forward.antt =====
-- The forwards of the forms: ipfw refuses the command that `__insert_rule` writes of them
-- (closedbsd/config/rules.c), unless the source port begins with "any".
use closed_bsd.Base.{
  ℕ, ◌≤◌, ◌≡◌, refl, ◌∙◌, ap, inl, inr, Bool, true, false, List, [], ◌∷◌, ◌++◌, none, arith, length,
  length-append, take-eq_of_le, ◌==◌, ltb, Bool-cases,
}
use closed_bsd.Ipfw.Exits.{errx, ex_dataerr, ex_nohost}
use closed_bsd.Ipfw.Address.{fill_ip}
use closed_bsd.Ipfw.Fields.{spells}
use closed_bsd.Ipfw.Head.{
  expect, read_address, read_not, read_host, is_ports, read_ports, read_from,
}
use closed_bsd.Ipfw.Libc.{Libc}
use closed_bsd.Ipfw.Numbers.{is_digit, starts_with_digit}
use closed_bsd.Ipfw.Ports.{first_port, port_in, lookup_port, must_port, fill_list, fill_port}
use closed_bsd.Ipfw.Rule.{Rule}
use closed_bsd.Loaded.Glued.{strtoul-to}
use closed_bsd.Loaded.Hosts.{read_host-IsHost}
use closed_bsd.Loaded.Numeral.{
  plain, plain-append, digits-plain, first_port-plain, scan-plain, pieces-plain, nonempty-digit,
}
use closed_bsd.Loaded.Spec.{IsHost, NoService, all_digits}
use closed_bsd.Rules.Command.Forward.{from_words}
use closed_bsd.Text.{Text, codes, starts_with}

-- A word that ipfw takes for the name of a host, and that is none.
pub record IsUnknown (libc : Libc) (word : Text) : Type 0 where
  pub not_not : spells word "not" ≡ false
  pub not_me : spells word "me" ≡ false
  pub unread : fill_ip libc word ≡ errx ex_nohost

-- A port in digits, of at most four as the form keeps them, that is no service together with "to".
pub record IsPortTo (libc : Libc) (port : Text) : Type 0 where
  pub some_byte : ltb 0 (length port) ≡ true
  pub in_digits : all_digits port ≡ true
  pub short : length port ≤ 4
  pub no_service : NoService libc (port ++ codes "to")

starts_with_digit-append :
    (s t : Text) → ltb 0 (length s) ≡ true → all_digits s ≡ true → starts_with_digit (s ++ t) ≡ true
unfolding starts_with_digit
starts_with_digit-append [] t h k = cc
starts_with_digit-append (c ∷ cs) t h k = nonempty-digit (c ∷ cs) h k

module _ (libc : Libc) (port : Text) (h : IsPortTo libc port) where
  port-to-plain : plain (port ++ codes "to") ≡ true
  port-to-plain =
      plain-append port (codes "to") (digits-plain port h.in_digits) (unfold plain in refl)

  port_in-IsPortTo : (prot : ℕ) → port_in libc prot (port ++ codes "to") ≡ none
  unfolding port_in
  port_in-IsPortTo prot =
      rw (strtoul-to port, port_in)
        (elim (Bool-cases (length (port ++ codes "to") == 0)) [
          | inl e ↦ rw e (h.no_service _)
          | inr e ↦ rw e (h.no_service _)
        ])

  must_port-IsPortTo : (prot : ℕ) → must_port libc (port ++ codes "to") prot ≡ errx ex_dataerr
  unfolding must_port lookup_port
  must_port-IsPortTo prot = rw (lookup, must_port) refl
    where
      lookup : lookup_port libc (port ++ codes "to") prot false ≡ none
      lookup =
          ap (port_in libc prot) (
            ap (first_port false) (
              take-eq_of_le 31 (port ++ codes "to")
                (omega (arith, h.short, length-append port (codes "to"))))
            ∙ first_port-plain (port ++ codes "to") port-to-plain)
          ∙ port_in-IsPortTo prot

  fill_port-IsPortTo :
      (before prot : ℕ) → fill_port libc before prot (port ++ codes "to") ≡ errx ex_dataerr
  unfolding fill_port fill_list
  fill_port-IsPortTo before prot =
      rw (scan-plain (port ++ codes "to") port-to-plain, fill_port)
        (rw (pieces-plain (port ++ codes "to") port-to-plain)
          (rw (must_port-IsPortTo prot, fill_list) refl))

  read_ports-IsPortTo :
      (before prot : ℕ) (av : List Text)
      → read_ports libc before prot ((port ++ codes "to") ∷ av) ≡ errx ex_dataerr
  unfolding read_ports is_ports
  read_ports-IsPortTo before prot av = rw (ports, fill_port-IsPortTo before prot, read_ports) refl
    where
      ports : is_ports libc prot (port ++ codes "to") ≡ true
      ports = rw (starts_with_digit-append port (codes "to") h.some_byte h.in_digits, is_ports) refl

-- What makes the words behind "from" unreadable: an unknown host, or a port in digits, each with
-- "to" at its end.
abbrev pub IsGlued : Libc → Text → Text → Type 0
IsGlued libc src [] = IsUnknown libc (src ++ codes "to")
IsGlued libc src (c ∷ p) = IsPortTo libc (c ∷ p) × (a : ℕ × ℕ) × IsHost libc src a

digit-not_any :
    (c : ℕ) (p : Text) → all_digits (c ∷ p) ≡ true → starts_with (codes "any") (c ∷ p) ≡ false
unfolding all_digits is_digit starts_with
digit-not_any c p h = ground arith

read_host-IsUnknown :
    (libc : Libc) (word : Text) (av : List Text)
    → IsUnknown libc word
    → read_host libc (word ∷ av) ≡ errx ex_nohost
unfolding read_host read_address
read_host-IsUnknown libc word av h =
    ap (λ (s : Bool × List Text). read_address libc s.0 s.1) not_negated
    ∙ rw (h.not_me, read_address) (rw (h.unread) refl)
  where
    not_negated : read_not (word ∷ av) ≡ (false, word ∷ av)
    not_negated = rw (h.not_not) refl

pub read_from-IsGlued :
    (libc : Libc) (rule : Rule) (src p : Text) (av : List Text)
    → IsGlued libc src p
    → (code : ℕ) × (read_from libc rule (codes "from" ∷ (from_words src p ++ av)) ≡ errx code)
unfolding read_from expect starts_with
read_from-IsGlued libc rule src [] av h =
    (ex_nohost, rw (read_host-IsUnknown libc (src ++ codes "to") av h, read_from) refl)
read_from-IsGlued libc rule src (c ∷ p) av h = (
  ex_dataerr,
  rw (digit-not_any c p h.0.in_digits) (
      rw (read_host-IsHost libc src h.1 (((c ∷ p) ++ codes "to") ∷ av) h.2, read_from)
        (rw (read_ports-IsPortTo libc (c ∷ p) h.0 0 rule.prot av) refl)),
)
