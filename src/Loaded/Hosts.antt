-- ===== src/Loaded/Hosts.antt =====
-- The addresses and the ports of a rule.
use closed_bsd.Base.{ℕ, ◌<◌, ◌≡◌, refl, ◌∙◌, ap, Bool, false, List, [], ◌∷◌, ◌++◌, length}
use closed_bsd.Ipfw.Exits.{done}
use closed_bsd.Ipfw.Head.{
  expect, read_not, read_address, read_host, is_ports, read_ports, read_from, read_to,
}
use closed_bsd.Ipfw.Libc.{Libc}
use closed_bsd.Ipfw.Rule.{listed, Rule}
use closed_bsd.Loaded.Numeral.{read_ports-IsNumeral}
use closed_bsd.Loaded.Spec.{IsHost, ArePorts}
use closed_bsd.Text.{Text, codes, starts_with}

-- What follows a port list is no port.
abbrev pub IsQuiet : Libc → ℕ → List Text → Type 0
IsQuiet libc prot [] = Unit
IsQuiet libc prot (word ∷ av) = is_ports libc prot word ≡ false

module _ (libc : Libc) where
  pub read_host-IsHost :
      (word : Text) (address : ℕ × ℕ) (av : List Text)
      → IsHost libc word address
      → read_host libc (word ∷ av)
        ≡ done (record { inverted = false; me = false; address = address }, av)
  unfolding read_host read_address
  read_host-IsHost word address av h =
      ap (λ (s : Bool × List Text). read_address libc s.0 s.1) not_negated
      ∙ rw (h.not_me, read_address) (rw (h.read) refl)
    where
      not_negated : read_not (word ∷ av) ≡ (false, word ∷ av)
      not_negated = rw (h.not_not) refl

  read_ports-ArePorts :
      (before prot : ℕ) (words : List Text) (ports : List ℕ) (av : List Text)
      → before < libc.max_ports
      → ArePorts words ports
      → IsQuiet libc prot av
      → read_ports libc before prot (words ++ av) ≡ done (ports, listed, av)
  unfolding read_ports
  read_ports-ArePorts before prot [] [] [] n h q = refl
  read_ports-ArePorts before prot [] [] (word ∷ av) n h q = rw (q, read_ports) refl
  read_ports-ArePorts before prot (word ∷ []) (port ∷ []) av n h q =
      read_ports-IsNumeral libc word port h before prot av n
  read_ports-ArePorts before prot [] (_ ∷ _) av n h q = absurd h
  read_ports-ArePorts before prot (_ ∷ _ ∷ _) ports av n h q = absurd h
  read_ports-ArePorts before prot (_ ∷ []) [] av n h q = absurd h
  read_ports-ArePorts before prot (_ ∷ []) (_ ∷ _ ∷ _) av n h q = absurd h

  pub read_from-IsHost :
      (rule : Rule) (word : Text) (address : ℕ × ℕ) (words : List Text) (ports : List ℕ)
      (av : List Text)
      → 0 < libc.max_ports
      → IsHost libc word address
      → ArePorts words ports
      → IsQuiet libc rule.prot av
      → read_from libc rule (codes "from" ∷ word ∷ (words ++ av))
        ≡ done (
          record rule {
            inv_src = false;
            src_me = false;
            src = address;
            src_ports = ports;
            src_kind = listed;
          },
          av,
        )
  unfolding read_from expect starts_with
  read_from-IsHost rule word address words ports av n h k q =
      rw (read_host-IsHost word address (words ++ av) h, read_from)
        (rw (read_ports-ArePorts 0 rule.prot words ports av n k q) refl)

  pub read_to-IsHost :
      (rule : Rule) (word : Text) (address : ℕ × ℕ) (words : List Text) (ports : List ℕ)
      (av : List Text)
      → length rule.src_ports < libc.max_ports
      → IsHost libc word address
      → ArePorts words ports
      → IsQuiet libc rule.prot av
      → read_to libc rule (codes "to" ∷ word ∷ (words ++ av))
        ≡ done (
          record rule {
            inv_dst = false;
            dst_me = false;
            dst = address;
            dst_ports = ports;
            dst_kind = listed;
          },
          av,
        )
  unfolding read_to expect starts_with
  read_to-IsHost rule word address words ports av n h k q =
      rw (read_host-IsHost word address (words ++ av) h, read_to)
        (rw (read_ports-ArePorts (length rule.src_ports) rule.prot words ports av n k q) refl)
