-- ===== src/Ipfw/Ports/Bounds.antt =====
-- The ports of a rule stay within their array, and the ICMP types within the bits of theirs.
use closed_bsd.Base.{
  ℕ, zero, suc, ◌+◌, ◌*◌, ◌≤◌, ◌<◌, ◌≡◌, sym, ap, inl, inr, false, List, [], ◌∷◌, ◌++◌, arith,
  length, length-append, leb, ◌==◌, Bool-cases, Option-cases, All, All-append,
}
use closed_bsd.Ipfw.Exits.{Exit, done, ◌>>=◌, >>=-eq-done, done-injective}
use closed_bsd.Ipfw.Fields.{pieces}
use closed_bsd.Ipfw.Flags.{past_comma, ends_number, icmp_loop, fill_icmptypes}
use closed_bsd.Ipfw.Libc.{Libc}
use closed_bsd.Ipfw.Numbers.{strtoul}
use closed_bsd.Ipfw.Ports.{must_port, port_or, add_port, fill_list, fill_pair, scan, fill_port}
use closed_bsd.Ipfw.Rule.{Ports, listed, ranged, masked}
use closed_bsd.Text.{Text, contains}

not_leb→lt : (a b : ℕ) → leb a b ≡ false → b < a
not_leb→lt a b h = ground arith

module _ (libc : Libc) (before : ℕ) where
  -- The ports fit behind those that stand in the array.
  abbrev Fit : List ℕ → Type 0
  Fit ports = before + length ports ≤ libc.max_ports

  add_port-Fit :
      (ports : List ℕ) (port : ℕ) (more : List ℕ)
      → add_port libc before ports port ≡ done more
      → Fit more
  unfolding add_port
  add_port-Fit ports port more h = elim (Bool-cases (leb libc.max_ports (before + length ports))) [
    | inl e ↦ (let h' = rw e at h in cc)
    | inr e ↦
        (let h' = rw e at h in
          let same = done-injective h' in
          rw (sym same) (omega (arith, length-append ports (port ∷ []), not_leb→lt _ _ e)))
  ]

  fill_list-Fit :
      (prot : ℕ) (args : List Text) (ports : List ℕ) (all : List ℕ)
      → Fit ports
      → fill_list libc before prot ports args ≡ done all
      → Fit all
  unfolding fill_list
  fill_list-Fit prot [] ports all n h = rw (sym (done-injective h)) n
  fill_list-Fit prot (arg ∷ args) ports all n h =
      let port = >>=-eq-done (must_port libc arg prot) _ h in
      let more = >>=-eq-done (add_port libc before ports port.0) _ port.2 in
      fill_list-Fit prot args more.0 all (add_port-Fit ports port.0 more.0 more.1) more.2

  fill_pair-Fit :
      (prot : ℕ) (low : Text) (args : List Text) (all : List ℕ)
      → before ≤ libc.max_ports
      → fill_pair libc before prot low args ≡ done all
      → Fit all
  unfolding fill_pair
  fill_pair-Fit prot low [] all n h = rw (sym (done-injective h)) (omega arith)
  fill_pair-Fit prot low (high ∷ args) all n h = elim (Bool-cases (contains b',' low)) [
    | inl e ↦ (let h' = rw e at h in cc)
    | inr e ↦
        (let h' = rw e at h in
          let from = >>=-eq-done (port_or libc low prot 0) _ h' in
          let one = >>=-eq-done (add_port libc before [] from.0) _ from.2 in
          let upto = >>=-eq-done (port_or libc high prot 65535) _ one.2 in
          let two = >>=-eq-done (add_port libc before one.0 upto.0) _ upto.2 in
          fill_list-Fit prot args two.0 all (add_port-Fit one.0 upto.0 two.0 two.1) two.2)
  ]

  tagged-Fit :
      (kind : Ports) (m : Exit (List ℕ)) (read : List ℕ × Ports)
      → ((all : List ℕ) → m ≡ done all → Fit all)
      → (m >>= λ ports. done (ports, kind)) ≡ done read
      → Fit read.0
  tagged-Fit kind m read k h =
      let all = >>=-eq-done m _ h in
      rw (sym (ap (λ (s : List ℕ × Ports). s.0) (done-injective all.2))) (k all.0 all.1)

  -- Where some ports stand in the array already, what is read of a further argument fits behind
  -- them, or ipfw ends.
  pub fill_port-Fit :
      (prot : ℕ) (arg : Text) (read : List ℕ × Ports)
      → before ≤ libc.max_ports
      → fill_port libc before prot arg ≡ done read
      → before + length read.0 ≤ libc.max_ports
  unfolding fill_port
  fill_port-Fit prot arg read n h =
      let whole =
        λ (h : (fill_list libc before prot [] (pieces arg) >>= λ ports. done (ports, listed))
            ≡ done read).
          tagged-Fit listed _ read
            (λ all. fill_list-Fit prot (pieces arg) [] all (omega (arith, n))) h in
      let pair =
        λ (found : ℕ × Text) (kind : Ports)
            (h : (fill_pair libc before prot (scan arg).0 (pieces found.1) >>= λ ports.
                done (ports, kind))
              ≡ done read).
          tagged-Fit kind _ read (λ all. fill_pair-Fit prot (scan arg).0 (pieces found.1) all n)
            h in
      elim (Option-cases (scan arg).1) [
        | inl e ↦ (let h' = rw (e, fill_port) at h in whole h')
        | inr (found, e) ↦
            (let h' = rw (e, fill_port) at h in
              elim (Bool-cases (found.0 == b':')) [
                | inl c ↦ (let h2 = rw c at h' in pair found masked h2)
                | inr c ↦
                    (let h2 = rw c at h' in
                      elim (Bool-cases (found.0 == b'-')) [
                        | inl d ↦ (let h3 = rw d at h2 in pair found ranged h3)
                        | inr d ↦ (let h3 = rw d at h2 in whole h3)
                      ])
              ])
      ]

module _ (libc : Libc) where
  abbrev pub IsType : ℕ → Type 0
  IsType n = n < libc.icmp_types_dim * 32

  icmp_loop-IsType :
      (fuel : ℕ) (s : Text) (types all : List ℕ)
      → All IsType types
      → icmp_loop libc fuel types s ≡ done all
      → All IsType all
  unfolding icmp_loop
  icmp_loop-IsType fuel [] types all k h = rw (sym (done-injective h)) k
  icmp_loop-IsType zero (c ∷ cs) types all k h = cc
  icmp_loop-IsType (suc fuel) (c ∷ cs) types all k h =
      let read = strtoul (past_comma (c ∷ cs)) in
      elim (Bool-cases (ends_number read.1)) [
        | inr e ↦ (let h' = rw e at h in cc)
        | inl e ↦
            (let h' = rw e at h in
              elim (Bool-cases (leb (libc.icmp_types_dim * 32) read.0)) [
                | inl d ↦ (let h2 = rw d at h' in cc)
                | inr d ↦
                    (let h2 = rw d at h' in
                      icmp_loop-IsType fuel read.1 (types ++ read.0 ∷ []) all
                        (All-append IsType types (read.0 ∷ []) k (not_leb→lt _ _ d, tt)) h2)
              ])
      ]

  -- The ICMP types that an option's argument sets have their bit in the rule's words.
  pub fill_icmptypes-IsType :
      (types : List ℕ) (s : Text) (all : List ℕ)
      → All IsType types
      → fill_icmptypes libc types s ≡ done all
      → All IsType all
  unfolding fill_icmptypes
  fill_icmptypes-IsType types s all k h = icmp_loop-IsType (length s) s types all k h
