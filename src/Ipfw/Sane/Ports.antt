-- ===== src/Ipfw/Sane/Ports.antt =====
-- The ports that ipfw reads have 16 bits.
use closed_bsd.Base.{
  ℕ, ◌+◌, ◌≤◌, ◌<◌, ◌≡◌, inl, inr, false, List, [], ◌∷◌, arith, length, some, Option, leb,
  Bool-cases, Option-cases, All, All-append,
}
use closed_bsd.Ipfw.Exits.{Exit, done, ◌>>=◌, Holds, Holds-of, Holds-done, Holds->>=}
use closed_bsd.Ipfw.Fields.{pieces}
use closed_bsd.Ipfw.Head.{is_ports, read_ports}
use closed_bsd.Ipfw.Libc.{Libc}
use closed_bsd.Ipfw.Numbers.{strtoul}
use closed_bsd.Ipfw.Ports.Bounds.{fill_port-Fit}
use closed_bsd.Ipfw.Ports.{
  port_in, is_number, lookup_port, must_port, port_or, add_port, fill_list, fill_pair, scan,
  fill_port,
}
use closed_bsd.Ipfw.Rule.{Ports, listed, ranged, masked}
use closed_bsd.Text.{Text, contains}

-- The databases keep to the widths of their fields: 16 bits of a port, 8 of a protocol.
pub record HasWidths (libc : Libc) : Type 0 where
  pub services :
      (name : Text) (proto : Option Text) (port : ℕ)
      → libc.getservbyname name proto ≡ some port
      → port < 65536
  pub protocols : (name : Text) (proto : ℕ) → libc.getprotobyname name ≡ some proto → proto < 256

abbrev pub IsPort : ℕ → Type 0
IsPort port = port < 65536

-- What `read_ports` comes to behind the ports that stand in the array.
abbrev pub ArePorts : Libc → ℕ → List ℕ → Type 0
ArePorts libc before ports = All IsPort ports × (before + length ports ≤ libc.max_ports)

module _ (libc : Libc) (widths : HasWidths libc) where
  port_in-IsPort :
      (prot : ℕ) (buf : Text) (port : ℕ) → port_in libc prot buf ≡ some port → IsPort port
  unfolding port_in
  port_in-IsPort prot buf port h = elim (Bool-cases (is_number buf (strtoul buf))) [
    | inl e ↦ (let h2 = rw (e, port_in) at h in ground arith)
    | inr e ↦ (let h2 = rw (e, port_in) at h in widths.services buf _ port h2)
  ]

  must_port-IsPort : (arg : Text) (prot : ℕ) → Holds IsPort (must_port libc arg prot)
  unfolding must_port lookup_port
  must_port-IsPort arg prot = elim (Option-cases (lookup_port libc arg prot false)) [
    | inl e ↦ rw (e, must_port) tt
    | inr (port, e) ↦ rw (e, must_port) (port_in-IsPort prot _ port e)
  ]

  port_or-IsPort :
      (arg : Text) (prot bound : ℕ) → IsPort bound → Holds IsPort (port_or libc arg prot bound)
  unfolding port_or
  port_or-IsPort [] prot bound h = h
  port_or-IsPort (c ∷ cs) prot bound h = must_port-IsPort (c ∷ cs) prot

  add_port-IsPort :
      (before : ℕ) (ports : List ℕ) (port : ℕ)
      → All IsPort ports
      → IsPort port
      → Holds (All IsPort) (add_port libc before ports port)
  unfolding add_port
  add_port-IsPort before ports port h k =
      elim (Bool-cases (leb libc.max_ports (before + length ports))) [
        | inl e ↦ rw (e, add_port) tt
        | inr e ↦ rw (e, add_port) (All-append IsPort ports (port ∷ []) h (k, tt))
      ]

  fill_list-IsPort :
      (before prot : ℕ) (args : List Text) (ports : List ℕ)
      → All IsPort ports
      → Holds (All IsPort) (fill_list libc before prot ports args)
  unfolding fill_list
  fill_list-IsPort before prot [] ports h = h
  fill_list-IsPort before prot (arg ∷ args) ports h =
      Holds->>= IsPort _ (must_port libc arg prot) _ (must_port-IsPort arg prot) (λ port k.
        Holds->>= (All IsPort) _ (add_port libc before ports port) _
          (add_port-IsPort before ports port h k)
          (λ more m. fill_list-IsPort before prot args more m))

  fill_pair-IsPort :
      (before prot : ℕ) (low : Text) (args : List Text)
      → Holds (All IsPort) (fill_pair libc before prot low args)
  unfolding fill_pair
  fill_pair-IsPort before prot low [] = tt
  fill_pair-IsPort before prot low (high ∷ args) = elim (Bool-cases (contains b',' low)) [
    | inl e ↦ rw (e, fill_pair) tt
    | inr e ↦
        rw (e, fill_pair)
          (Holds->>= IsPort _ (port_or libc low prot 0) _ (port_or-IsPort low prot 0 (omega arith))
            (λ from k.
              Holds->>= (All IsPort) _ (add_port libc before [] from) _
                (add_port-IsPort before [] from tt k)
                (λ one l.
                  Holds->>= IsPort _ (port_or libc high prot 65535) _
                    (port_or-IsPort high prot 65535 (omega arith))
                    (λ upto m.
                      Holds->>= (All IsPort) _ (add_port libc before one upto) _
                        (add_port-IsPort before one upto l m)
                        (λ two n. fill_list-IsPort before prot args two n)))))
  ]

  tagged-IsPort :
      (kind : Ports) (m : Exit (List ℕ))
      → Holds (All IsPort) m
      → Holds {V = List ℕ × Ports} (λ read. All IsPort read.0) (m >>= λ ports. done (ports, kind))
  tagged-IsPort kind m h = Holds->>= (All IsPort) _ m (λ ports. done (ports, kind)) h (λ ports k. k)

  fill_port-IsPort :
      (before prot : ℕ) (arg : Text)
      → Holds (λ read. All IsPort read.0) (fill_port libc before prot arg)
  unfolding fill_port
  fill_port-IsPort before prot arg =
      let whole = tagged-IsPort listed _ (fill_list-IsPort before prot (pieces arg) [] tt) in
      let pair = λ (found : ℕ × Text) (kind : Ports).
        tagged-IsPort kind _ (fill_pair-IsPort before prot (scan arg).0 (pieces found.1)) in
      elim (Option-cases (scan arg).1) [
        | inl e ↦ rw (e, fill_port) whole
        | inr (found, e) ↦
            rw (e, fill_port) (ground (arith, whole, pair found masked, pair found ranged))
      ]

  pub read_ports-ArePorts :
      (before prot : ℕ) (av : List Text)
      → before ≤ libc.max_ports
      → Holds (λ r. ArePorts libc before r.0) (read_ports libc before prot av)
  unfolding read_ports
  read_ports-ArePorts before prot [] n = (tt, omega arith)
  read_ports-ArePorts before prot (word ∷ av) n = elim (Bool-cases (is_ports libc prot word)) [
    | inr e ↦ rw (e, read_ports) (tt, omega arith)
    | inl e ↦
        rw (e, read_ports)
          (Holds->>= (ArePorts_of before) _ (fill_port libc before prot word) _ (both)
            (λ ports k. k))
  ]
    where
      ArePorts_of : ℕ → List ℕ × Ports → Type 0
      ArePorts_of b read = ArePorts libc b read.0

      both : Holds (ArePorts_of before) (fill_port libc before prot word)
      both = Holds-of (ArePorts_of before) _ (λ read e. (
        Holds-done (λ (read : List ℕ × Ports). All IsPort read.0) _ read
            (fill_port-IsPort before prot word) e,
        fill_port-Fit libc before prot word read n e,
      ))
