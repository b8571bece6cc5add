-- ===== src/Ipfw/Ends/Hosts.antt =====
-- The addresses and ports of a rule are read to an end.
use closed_bsd.Base.{ℕ, inl, inr, Bool, List, [], ◌∷◌, arith, Bool-cases, Option-cases}
use closed_bsd.Ipfw.Address.{by_width, by_netmask, fill_host, fill_ip}
use closed_bsd.Ipfw.Exits.{Exit, done, Ends, ◌>>=◌, >>=-Ends}
use closed_bsd.Ipfw.Head.{read_host, read_ports, is_ports, read_not, read_address}
use closed_bsd.Ipfw.Libc.{Libc}
use closed_bsd.Ipfw.Ports.{must_port, port_or, add_port, fill_list, fill_pair, fill_port, scan}
use closed_bsd.Ipfw.Rule.{Ports, listed, ranged, masked}
use closed_bsd.Ipfw.Fields.{pieces}
use closed_bsd.Text.{Text, contains}

tagged-Ends :
    (kind : Ports) (m : Exit (List ℕ))
    → Ends m
    → Ends {V = List ℕ × Ports} (m >>= λ ports. done (ports, kind))
tagged-Ends kind m h = >>=-Ends m (λ ports. done (ports, kind)) h (λ ports. tt)

module _ (libc : Libc) where
  fill_host-Ends : (word : Text) → Ends (fill_host libc word)
  unfolding fill_host by_width by_netmask
  fill_host-Ends word = ground arith

  pub fill_ip-Ends : (word : Text) → Ends (fill_ip libc word)
  unfolding fill_ip
  fill_ip-Ends word = ground (arith, fill_host-Ends word)

  must_port-Ends : (arg : Text) (prot : ℕ) → Ends (must_port libc arg prot)
  unfolding must_port
  must_port-Ends arg prot = ground arith

  port_or-Ends : (arg : Text) (prot bound : ℕ) → Ends (port_or libc arg prot bound)
  unfolding port_or
  port_or-Ends [] prot bound = tt
  port_or-Ends (c ∷ cs) prot bound = must_port-Ends (c ∷ cs) prot

  add_port-Ends : (before : ℕ) (ports : List ℕ) (port : ℕ) → Ends (add_port libc before ports port)
  unfolding add_port
  add_port-Ends before ports port = ground arith

  fill_list-Ends :
      (before prot : ℕ) (args : List Text) (ports : List ℕ)
      → Ends (fill_list libc before prot ports args)
  unfolding fill_list
  fill_list-Ends before prot [] ports = tt
  fill_list-Ends before prot (arg ∷ args) ports =
      >>=-Ends (must_port libc arg prot) _ (must_port-Ends arg prot) (λ port.
        >>=-Ends (add_port libc before ports port) _ (add_port-Ends before ports port)
          (λ more. fill_list-Ends before prot args more))

  fill_pair-Ends :
      (before prot : ℕ) (low : Text) (args : List Text) → Ends (fill_pair libc before prot low args)
  unfolding fill_pair
  fill_pair-Ends before prot low [] = tt
  fill_pair-Ends before prot low (high ∷ args) = elim (Bool-cases (contains b',' low)) [
    | inl e ↦ rw (e, fill_pair) tt
    | inr e ↦
        rw (e, fill_pair)
          (>>=-Ends (port_or libc low prot 0) _ (port_or-Ends low prot 0) (λ from.
            >>=-Ends (add_port libc before [] from) _ (add_port-Ends before [] from) (λ one.
              >>=-Ends (port_or libc high prot 65535) _ (port_or-Ends high prot 65535) (λ upto.
                >>=-Ends (add_port libc before one upto) _ (add_port-Ends before one upto)
                  (λ two. fill_list-Ends before prot args two)))))
  ]

  fill_port-Ends : (before prot : ℕ) (arg : Text) → Ends (fill_port libc before prot arg)
  unfolding fill_port
  fill_port-Ends before prot arg =
      let whole = tagged-Ends listed _ (fill_list-Ends before prot (pieces arg) []) in
      let pair = λ (found : ℕ × Text) (kind : Ports).
        tagged-Ends kind _ (fill_pair-Ends before prot (scan arg).0 (pieces found.1)) in
      elim (Option-cases (scan arg).1) [
        | inl e ↦ rw (e, fill_port) whole
        | inr (found, e) ↦
            rw (e, fill_port) (ground (arith, whole, pair found masked, pair found ranged))
      ]

  pub read_ports-Ends : (before prot : ℕ) (av : List Text) → Ends (read_ports libc before prot av)
  unfolding read_ports
  read_ports-Ends before prot [] = tt
  read_ports-Ends before prot (word ∷ av) = elim (Bool-cases (is_ports libc prot word)) [
    | inl e ↦
        rw (e, read_ports)
          (>>=-Ends (fill_port libc before prot word) _ (fill_port-Ends before prot word)
            (λ ports. tt))
    | inr e ↦ rw (e, read_ports) tt
  ]

  read_address-Ends :
      (inverted : Bool) (words : List Text) → Ends (read_address libc inverted words)
  unfolding read_address
  read_address-Ends inverted [] = tt
  read_address-Ends inverted (word ∷ rest) = ground (arith, fill_ip-Ends word)

  pub read_host-Ends : (av : List Text) → Ends (read_host libc av)
  unfolding read_host
  read_host-Ends av = read_address-Ends (read_not av).0 (read_not av).1
