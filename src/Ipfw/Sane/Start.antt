-- ===== src/Ipfw/Sane/Start.antt =====
-- The number, the action and the protocol of a rule.
use Prim.Native.Nat.{◌^◌}
use closed_bsd.Base.{
  ℕ, ◌%◌, ◌<◌, ◌≡◌, refl, inl, inr, true, List, [], ◌∷◌, arith, ◌==◌, Bool-cases, Option-cases,
}
use closed_bsd.Ipfw.Action.{
  read_number, read_prob, numbered, diverted, forward_port, target_parts, forwarded, skipped,
  unreached, by_keyword, read_action,
}
use closed_bsd.Ipfw.Address.{fill_ip}
use closed_bsd.Ipfw.Exits.{Exit, ◌>>=◌, Holds, Holds->>=, Holds-any}
use closed_bsd.Ipfw.Fields.{spells}
use closed_bsd.Ipfw.Flags.{fill_reject_code}
use closed_bsd.Ipfw.Head.{read_log, read_logamount, read_proto, check_reset, sends_rst}
use closed_bsd.Ipfw.Libc.{Libc, ipproto_tcp}
use closed_bsd.Ipfw.Numbers.{atoi, starts_with_digit}
use closed_bsd.Ipfw.Rule.{Command, Rule, Parsed, zeroed}
use closed_bsd.Ipfw.Sane.Ports.{HasWidths}
use closed_bsd.Text.{Text}

-- A rule of which no more is read than its number, its action and its protocol.
abbrev pub IsStart : Parsed → Type 0
IsStart s =
    (s.0.fw_number < 65536)
    × (s.0.prot < 256)
    × (s.0.src_ports ≡ [])
    × (s.0.dst_ports ≡ [])
    × (s.0.icmptypes ≡ [])

abbrev pub SendsToTcp : Parsed → Type 0
SendsToTcp s = sends_rst s.0.command ≡ true → s.0.prot ≡ ipproto_tcp

module _ (libc : Libc) where
  reads-IsStart {ℓ} :
      {V : Type ℓ} (first : Exit V) (next : V → Exit Parsed)
      → ((v : V) → Holds IsStart (next v))
      → Holds IsStart (first >>= next)
  reads-IsStart first next k = Holds->>= _ _ first next (Holds-any first) (λ v _. k v)

  pub read_number-IsStart : (av : List Text) → IsStart (read_number zeroed av)
  unfolding read_number
  read_number-IsStart [] = (omega arith, omega arith, refl, refl, refl)
  read_number-IsStart (word ∷ av) = elim (Bool-cases (starts_with_digit word)) [
    | inl e ↦ rw (e, read_number) (omega arith, omega arith, refl, refl, refl)
    | inr e ↦ rw (e, read_number) (omega arith, omega arith, refl, refl, refl)
  ]

  module _ (rule : Rule) (h : IsStart (rule, [])) where
    pub read_prob-IsStart : (av : List Text) → Holds IsStart (read_prob libc rule av)
    unfolding read_prob
    read_prob-IsStart [] = h
    read_prob-IsStart (word ∷ []) = h
    read_prob-IsStart (word ∷ chance ∷ av) = ground (arith, h)

    numbered-IsStart :
        (command : ℕ → Command) (av : List Text) → Holds IsStart (numbered command rule av)
    unfolding numbered
    numbered-IsStart command [] = tt
    numbered-IsStart command (word ∷ av) = h

    diverted-IsStart :
        (command : ℕ → Command) (av : List Text) → Holds IsStart (diverted libc command rule av)
    unfolding diverted
    diverted-IsStart command [] = tt
    diverted-IsStart command (word ∷ av) = ground (arith, h)

    forwarded-IsStart : (av : List Text) → Holds IsStart (forwarded libc rule av)
    unfolding forwarded
    forwarded-IsStart [] = tt
    forwarded-IsStart (word ∷ av) =
        reads-IsStart (forward_port libc (target_parts word).1) _ (λ port.
          reads-IsStart (fill_ip libc (target_parts word).0) _ (λ target. ground (arith, h)))

    skipped-IsStart : (av : List Text) → Holds IsStart (skipped rule av)
    unfolding skipped
    skipped-IsStart [] = tt
    skipped-IsStart (word ∷ av) = h

    unreached-IsStart : (av : List Text) → Holds IsStart (unreached rule av)
    unfolding unreached
    unreached-IsStart [] = tt
    unreached-IsStart (word ∷ av) = reads-IsStart (fill_reject_code word) _ (λ code. h)

    pub read_action-IsStart : (av : List Text) → Holds IsStart (read_action libc rule av)
    unfolding read_action by_keyword
    read_action-IsStart [] = tt
    read_action-IsStart (word ∷ av) = ground (
      arith,
      h,
      numbered-IsStart Command.pipe av,
      numbered-IsStart Command.queue av,
      diverted-IsStart Command.divert av,
      diverted-IsStart Command.tee av,
      forwarded-IsStart av,
      skipped-IsStart av,
      unreached-IsStart av,
    )

    pub read_log-IsStart : (av : List Text) → IsStart (read_log rule av)
    unfolding read_log
    read_log-IsStart [] = h
    read_log-IsStart (word ∷ av) = elim (Bool-cases (spells word "log")) [
      | inl e ↦ rw (e, read_log) h
      | inr e ↦ rw (e, read_log) h
    ]

    pub read_logamount-IsStart : (av : List Text) → Holds IsStart (read_logamount rule av)
    unfolding read_logamount
    read_logamount-IsStart [] = h
    read_logamount-IsStart (word ∷ []) = ground (arith, h)
    read_logamount-IsStart (word ∷ amount ∷ av) = ground (arith, h)

    pub read_proto-IsStart :
        HasWidths libc → (av : List Text) → Holds IsStart (read_proto libc rule av)
    unfolding read_proto
    read_proto-IsStart widths [] = tt
    read_proto-IsStart widths (word ∷ av) = elim (Bool-cases (atoi word % 2 ^ 8 == 0)) [
      | inr e ↦ rw (e, read_proto) (h.0, omega arith, h.2, h.3, h.4)
      | inl e ↦
          rw (e, read_proto)
            (elim (Bool-cases (spells word "all")) [
              | inl a ↦ rw a (h.0, omega arith, h.2, h.3, h.4)
              | inr a ↦ rw a (elim (Option-cases (libc.getprotobyname word)) [
                | inl n ↦ rw n tt
                | inr (found, n) ↦ rw n (h.0, widths.protocols word found n, h.2, h.3, h.4)
              ])
            ])
    ]

  pub check_reset-SendsToTcp :
      (rule : Rule) (av : List Text)
      → IsStart (rule, av)
      → Holds (λ s. IsStart s × SendsToTcp s) (check_reset rule av)
  unfolding check_reset
  check_reset-SendsToTcp rule av h = ground (arith, h)
