-- ===== src/Loaded/Options.antt =====
-- The direction and the option of a rule.
use closed_bsd.Base.{
  ℕ, ◌<◌, ◌≡◌, refl, ◌∙◌, inl, inr, Bool, true, false, List, [], ◌∷◌, ◌++◌, arith, length, ◌==◌,
  Bool-cases,
}
use closed_bsd.Ipfw.Exits.{done}
use closed_bsd.Ipfw.Fields.{pieces, up_to_empty, negated}
use closed_bsd.Ipfw.Flags.{
  fill_ipopt, fill_ip_fields, ip_bits, fill_icmptypes, icmp_loop, past_comma, ends_number,
}
use closed_bsd.Ipfw.Libc.{Libc}
use closed_bsd.Ipfw.Numbers.{
  is_digit, sign, skip_spaces, magnitude, digits, digit_in, strtoul, any_base, to_ulong,
}
use closed_bsd.Ipfw.Options.{
  Progress, options, option_step, ipoptions_option, tcp_keyword, icmp_keyword, icmptypes_option,
}
use closed_bsd.Ipfw.Rule as Kernel
use closed_bsd.Loaded.Spec.{with_option, redirect, hosted, Endpoints}
use closed_bsd.Rules.Command.Grammar.{flow_words, option_words}
use closed_bsd.Rules.Ruleset.{
  Action, Proto, ip, tcp, udp, icmp, Flow, any, incoming, outgoing, setup, established, frag, ssrr,
  lsrr, ts, echo_reply, dest_unreach, echo_request,
}
use closed_bsd.Text.{Text, codes, starts_with}

abbrev pub begun : Kernel.Rule → Progress
begun rule = record { rule = rule; saw_xmrc = false; saw_via = false }

abbrev goes_in : Flow → Bool
goes_in incoming = true
goes_in _ = false

abbrev goes_out : Flow → Bool
goes_out outgoing = true
goes_out _ = false

-- The words of the direction set its bit.
abbrev pub flowing : Flow → Kernel.Rule → Kernel.Rule
flowing f rule = record rule { incoming = goes_in f; outgoing = goes_out f }

options-flow :
    (libc : Libc) (a : Action) (p : Proto) (e : Endpoints) (f : Flow) (av : List Text)
    → options libc (length (flow_words f ++ av)) (begun (hosted a p e)) (flow_words f ++ av)
      ≡ options libc (length av) (begun (flowing f (hosted a p e))) av
unfolding options option_step starts_with
options-flow libc a p e any av = refl
options-flow libc a p e incoming av = refl
options-flow libc a p e outgoing av = refl

fill_5 :
    (libc : Libc) → 0 < libc.icmp_types_dim → fill_icmptypes libc [] (codes "5") ≡ done (5 ∷ [])
unfolding fill_icmptypes icmp_loop past_comma ends_number strtoul skip_spaces sign any_base
    magnitude digits digit_in is_digit to_ulong
fill_5 libc n = ground arith

fill_3 :
    (libc : Libc) → 0 < libc.icmp_types_dim → fill_icmptypes libc [] (codes "3") ≡ done (3 ∷ [])
unfolding fill_icmptypes icmp_loop past_comma ends_number strtoul skip_spaces sign any_base
    magnitude digits digit_in is_digit to_ulong
fill_3 libc n = ground arith

fill_0 :
    (libc : Libc) → 0 < libc.icmp_types_dim → fill_icmptypes libc [] (codes "0") ≡ done (0 ∷ [])
unfolding fill_icmptypes icmp_loop past_comma ends_number strtoul skip_spaces sign any_base
    magnitude digits digit_in is_digit to_ulong
fill_0 libc n = ground arith

-- The options of a rule that has none so far.
module _ (libc : Libc) (a : Action) (e : Endpoints) (f : Flow) where
  IsRead : Proto → ℕ → Type 0
  IsRead p o =
      options libc (length (option_words (codes "5") p o)) (begun (flowing f (hosted a p e)))
        (option_words (codes "5") p o)
      ≡ done (begun (with_option redirect p o (flowing f (hosted a p e))))

  options-ip : (o : ℕ) → IsRead ip o
  unfolding IsRead options option_step starts_with ipoptions_option fill_ipopt fill_ip_fields
      ip_bits pieces up_to_empty negated
  options-ip o = elim (Bool-cases (o == ssrr)) [
    | inl e ↦ rw e refl
    | inr e ↦ rw e (elim (Bool-cases (o == lsrr)) [
      | inl e ↦ rw e refl
      | inr e ↦ rw e (elim (Bool-cases (o == ts)) [ inl e ↦ rw e refl | inr e ↦ rw e refl ])
    ])
  ]

  options-tcp : (o : ℕ) → IsRead tcp o
  unfolding IsRead options option_step starts_with tcp_keyword
  options-tcp o = elim (Bool-cases (o == setup)) [
    | inl e ↦ rw e refl
    | inr e ↦ rw e (elim (Bool-cases (o == established)) [
      | inl e ↦ rw e refl
      | inr e ↦ rw e (elim (Bool-cases (o == frag)) [ inl e ↦ rw e refl | inr e ↦ rw e refl ])
    ])
  ]

  options-icmp : 0 < libc.icmp_types_dim → (o : ℕ) → IsRead icmp o
  unfolding IsRead options option_step starts_with icmp_keyword icmptypes_option
  options-icmp n o = elim (Bool-cases (o == echo_request)) [
    | inl e ↦ rw e (rw (fill_5 libc n) refl)
    | inr e ↦ rw e (elim (Bool-cases (o == dest_unreach)) [
      | inl e ↦ rw e (rw (fill_3 libc n) refl)
      | inr e ↦ rw e (elim (Bool-cases (o == echo_reply)) [
        | inl e ↦ rw e (rw (fill_0 libc n) refl)
        | inr e ↦ rw e refl
      ])
    ])
  ]

  options-udp : (o : ℕ) → IsRead udp o
  unfolding IsRead options
  options-udp o = refl

  -- The option loop on the words of a rule's direction and option.
  pub options-words :
      0 < libc.icmp_types_dim
      → (p : Proto) (o : ℕ)
      → options libc
          (length (flow_words f ++ option_words (codes "5") p o))
          (begun (hosted a p e))
          (flow_words f ++ option_words (codes "5") p o)
        ≡ done (begun (with_option redirect p o (flowing f (hosted a p e))))
  unfolding IsRead
  options-words n ip o = options-flow libc a ip e f (option_words (codes "5") ip o) ∙ options-ip o
  options-words n tcp o =
      options-flow libc a tcp e f (option_words (codes "5") tcp o) ∙ options-tcp o
  options-words n udp o =
      options-flow libc a udp e f (option_words (codes "5") udp o) ∙ options-udp o
  options-words n icmp o =
      options-flow libc a icmp e f (option_words (codes "5") icmp o) ∙ options-icmp n o
