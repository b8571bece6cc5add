-- ===== src/Ipfw/Sane.antt =====
-- Every rule that ipfw hands to the kernel is one that the kernel can take: its fields keep to their
-- widths and arrays, and its parts go together.
pub mod Options
pub mod Ports
pub mod Finish
pub mod Start
pub mod Request
use closed_bsd.Base.{
  ℕ, ◌+◌, ◌≤◌, ◌<◌, ◌≡◌, refl, ◌∙◌, sym, ap, ◌⊎◌, inl, inr, Bool, true, false, not, ◌&&◌, ◌||◌,
  List, [], ◌∷◌, arith, length, ltb, ◌==◌, if◌then◌else◌, Bool-cases, All,
}
use closed_bsd.Ipfw.Action.{read_number, read_prob, read_action}
use closed_bsd.Ipfw.Add.{add, read_body, read_hosts, goes_on, finish}
use closed_bsd.Ipfw.Exits.{
  Exit, done, errx, ◌>>=◌, Holds, Holds->>=, Holds-imp, Holds-any, Holds-done,
}
use closed_bsd.Ipfw.Head.{
  read_log, read_logamount, read_proto, check_reset, sends_rst, expect, read_host, read_ports,
  read_from, read_to, check_ports,
}
use closed_bsd.Ipfw.Libc.{Libc, ipproto_tcp, ipproto_udp}
use closed_bsd.Ipfw.Options.{Progress, options}
use closed_bsd.Ipfw.Ports.Bounds.{IsType}
use closed_bsd.Ipfw.Rule.{Command, Rule, Parsed, zeroed}
use closed_bsd.Ipfw.Sane.Finish.{IsLeft, Goes, IsWhole, finish-IsWhole}
use closed_bsd.Ipfw.Sane.Options.{core, IsKept, options-IsKept}
use closed_bsd.Ipfw.Sane.Ports.{HasWidths, IsPort, ArePorts, read_ports-ArePorts}
use closed_bsd.Ipfw.Sane.Start.{
  IsStart, SendsToTcp, read_number-IsStart, read_prob-IsStart, read_action-IsStart,
  read_log-IsStart, read_logamount-IsStart, read_proto-IsStart, check_reset-SendsToTcp,
}
use closed_bsd.Text.{Text, codes}

-- The fields that the options leave alone: the number has 16 bits and the protocol 8, a RST is sent
-- for TCP only, the ports have 16 bits and fit into their array, and stand with TCP or UDP only.
abbrev pub HasCore : Libc → ℕ × ℕ × Command × List ℕ × List ℕ → Type 0
HasCore libc c =
    (c.0 < 65536)
    × (c.1 < 256)
    × (sends_rst c.2 ≡ true → c.1 ≡ ipproto_tcp)
    × All IsPort c.3
    × All IsPort c.4
    × (length c.3 + length c.4 ≤ libc.max_ports)
    × (0 < length c.3 + length c.4 → (c.1 ≡ ipproto_tcp) ⊎ (c.1 ≡ ipproto_udp))

-- A rule goes in some direction unless it is "check-state", its ICMP types have their bit, and it
-- does not match fragments by ports or TCP flags.
pub record IsSane (libc : Libc) (rule : Rule) : Type 0 where
  pub has_core : HasCore libc (core rule)
  pub types : All (IsType libc) rule.icmptypes
  pub goes : goes_on rule.command ≡ true → Goes rule
  pub whole : goes_on rule.command ≡ true → IsWhole rule

-- What is known behind the ports of the source, of the destination, and behind their check.
abbrev IsFrom : Libc → Parsed → Type 0
IsFrom libc s =
    (s.0.fw_number < 65536)
    × (s.0.prot < 256)
    × SendsToTcp s
    × (s.0.dst_ports ≡ [])
    × (s.0.icmptypes ≡ [])
    × ArePorts libc 0 s.0.src_ports

abbrev IsTo : Libc → Parsed → Type 0
IsTo libc s =
    (s.0.fw_number < 65536)
    × (s.0.prot < 256)
    × SendsToTcp s
    × (s.0.icmptypes ≡ [])
    × ArePorts libc 0 s.0.src_ports
    × ArePorts libc (length s.0.src_ports) s.0.dst_ports

abbrev IsChecked : Libc → Parsed → Type 0
IsChecked libc s = HasCore libc (core s.0) × (s.0.icmptypes ≡ [])

bare_command : (c : Command) → goes_on c ≡ false → sends_rst c ≡ true → ⊥
unfolding goes_on sends_rst
bare_command c e r = ground arith

no_ports : (src dst : List ℕ) → src ≡ [] → dst ≡ [] → 0 < length src + length dst → ⊥
no_ports src dst e f n = let n2 = rw (e, f) at n in omega arith

only_tcp_udp :
    (prot n : ℕ)
    → (not (prot == ipproto_tcp) && not (prot == ipproto_udp) && ltb 0 n) ≡ false
    → 0 < n
    → (prot ≡ ipproto_tcp) ⊎ (prot ≡ ipproto_udp)
only_tcp_udp prot n e h = ground arith

HasCore-eq :
    (libc : Libc) (c d : ℕ × ℕ × Command × List ℕ × List ℕ)
    → c ≡ d
    → HasCore libc d
    → HasCore libc c
HasCore-eq libc c d e h = rw e h

module _ (libc : Libc) (widths : HasWidths libc) where
  read_from-IsFrom :
      (rule : Rule) (av : List Text)
      → IsStart (rule, av) × SendsToTcp (rule, av)
      → Holds (IsFrom libc) (read_from libc rule av)
  unfolding read_from
  read_from-IsFrom rule av h =
      Holds->>= (λ ws. Unit) _ (expect (codes "from") av) _ (Holds-any (expect (codes "from") av))
        (λ ws _.
          Holds->>= (λ host. Unit) _ (read_host libc ws) _ (Holds-any (read_host libc ws))
            (λ host _.
              Holds->>= (λ r. ArePorts libc 0 r.0) _ (read_ports libc 0 rule.prot host.1) _
                (read_ports-ArePorts libc widths 0 rule.prot host.1 (omega arith))
                (λ ports k. (h.0.0, h.0.1, h.1, h.0.3, h.0.4, k))))

  read_to-IsTo :
      (rule : Rule) (av : List Text)
      → IsFrom libc (rule, av)
      → Holds (IsTo libc) (read_to libc rule av)
  unfolding read_to
  read_to-IsTo rule av h =
      Holds->>= (λ ws. Unit) _ (expect (codes "to") av) _ (Holds-any (expect (codes "to") av))
        (λ ws _.
          Holds->>= (λ host. Unit) _ (read_host libc ws) _ (Holds-any (read_host libc ws))
            (λ host _.
              Holds->>= (λ r. ArePorts libc (length rule.src_ports) r.0) _
                (read_ports libc (length rule.src_ports) rule.prot host.1) _
                (read_ports-ArePorts libc widths (length rule.src_ports) rule.prot host.1
                  (omega (arith, h.5.1)))
                (λ ports k. (h.0, h.1, h.2, h.4, h.5, k))))

  check_ports-IsChecked :
      (rule : Rule) (av : List Text)
      → IsTo libc (rule, av)
      → Holds (IsChecked libc) (check_ports rule av)
  unfolding check_ports
  check_ports-IsChecked rule av h =
      elim (Bool-cases (
        not (rule.prot == ipproto_tcp)
        && not (rule.prot == ipproto_udp)
        && ltb 0 (length rule.src_ports + length rule.dst_ports))) [
          | inl e ↦ rw (e, check_ports) tt
          | inr e ↦
              rw (e, check_ports)
                ((h.0, h.1, h.2, h.4.0, h.5.0, h.5.1, only_tcp_udp rule.prot _ e), h.3)
        ]

  read_hosts-IsSane :
      (rule : Rule) (av : List Text)
      → IsStart (rule, av) × SendsToTcp (rule, av)
      → Holds (IsSane libc) (read_hosts libc rule av)
  unfolding read_hosts
  read_hosts-IsSane rule av h =
      Holds->>= (IsFrom libc) _ (read_from libc rule av) _ (read_from-IsFrom rule av h) (λ s h1.
        Holds->>= (IsTo libc) _ (read_to libc s.0 s.1) _ (read_to-IsTo s.0 s.1 h1) (λ s h2.
          Holds->>= (IsChecked libc) _ (check_ports s.0 s.1) _ (check_ports-IsChecked s.0 s.1 h2)
            (λ s h3.
              Holds->>= (IsKept libc s.0) _ (options libc (length s.1) _ s.1) _
                (options-IsKept libc s.0 (length s.1)
                  (record { rule = s.0; saw_xmrc = false; saw_via = false }) s.1 (refl, rw h3.1 tt))
                (λ p h4. Holds-imp _ (IsSane libc) (finish libc p) (finish-IsWhole libc p) (λ r h5.
                  record {
                    has_core = HasCore-eq libc (core r) (core s.0) (h5.0.0 ∙ h4.0) h3.0;
                    types = rw h5.0.1 h4.1;
                    goes = λ _. h5.1;
                    whole = λ _. h5.2;
                  })))))

  read_body-IsSane :
      (rule : Rule) (av : List Text)
      → IsStart (rule, av)
      → Holds (IsSane libc) (read_body libc rule av)
  unfolding read_body
  read_body-IsSane rule av h =
      let logged = read_log rule av in
      Holds->>= IsStart _ (read_logamount logged.0 logged.1) _
        (read_logamount-IsStart libc logged.0 (read_log-IsStart libc rule h av) logged.1)
        (λ s h1.
          Holds->>= IsStart _ (read_proto libc s.0 s.1) _
            (read_proto-IsStart libc s.0 h1 widths s.1)
            (λ s h2.
              Holds->>= (λ s. IsStart s × SendsToTcp s) _ (check_reset s.0 s.1) _
                (check_reset-SendsToTcp libc s.0 s.1 h2) (λ s h3. read_hosts-IsSane s.0 s.1 h3)))

  -- "check-state" ends a rule behind its action.
  bare-IsSane : (s : Parsed) → IsStart s → goes_on s.0.command ≡ false → IsSane libc s.0
  bare-IsSane s h e = record {
    has_core = (
      h.0,
      h.1,
      (λ r. absurd (bare_command s.0.command e r)),
      rw h.2 tt,
      rw h.3 tt,
      rw (h.2, h.3) (omega arith),
      (λ n. absurd (no_ports s.0.src_ports s.0.dst_ports h.2 h.3 n)),
    );
    types = rw h.4 tt;
    goes = λ g. cc;
    whole = λ g. cc;
  }

  pub add-IsSane : (av : List Text) → Holds (IsSane libc) (add libc av)
  unfolding add
  add-IsSane av =
      let numbered = read_number zeroed av in
      Holds->>= IsStart _ (read_prob libc numbered.0 numbered.1) _
        (read_prob-IsStart libc numbered.0 (read_number-IsStart libc av) numbered.1)
        (λ s h1.
          Holds->>= IsStart _ (read_action libc s.0 s.1) _ (read_action-IsStart libc s.0 h1 s.1)
            (λ s h2. elim (Bool-cases (goes_on s.0.command)) [
              | inl e ↦ rw e (read_body-IsSane s.0 s.1 h2)
              | inr e ↦ rw e (bare-IsSane s h2 e)
            ]))
