-- ===== src/Ipfw/Sane/Options.antt =====
-- The options change neither the number, the protocol, the action nor the ports of a rule, and the
-- ICMP types that they set have their bit.
use closed_bsd.Base.{
  ℕ, zero, suc, ◌≡◌, refl, ◌∙◌, inl, inr, ◌||◌, List, [], ◌∷◌, arith, length, ◌==◌, Bool-cases, All,
}
use closed_bsd.Ipfw.Exits.{Exit, ◌>>=◌, Holds, Holds-of, Holds->>=, Holds-any}
use closed_bsd.Ipfw.Flags.{fill_tcpflag, fill_tcpopts, fill_icmptypes}
use closed_bsd.Ipfw.Iface.{fill_iface}
use closed_bsd.Ipfw.Libc.{Libc}
use closed_bsd.Ipfw.Options.{
  Progress, Step, look_up, uid_option, gid_option, read_masks, limit_option, keep_option,
  xmit_option, recv_option, via_option, ipoptions_option, tcpflags_option, tcpopts_option,
  icmptypes_option, tcp_keyword, icmp_keyword, option_step, options,
}
use closed_bsd.Ipfw.Numbers.{atoi}
use closed_bsd.Ipfw.Ports.Bounds.{IsType, fill_icmptypes-IsType}
use closed_bsd.Ipfw.Rule.{Command, Rule}
use closed_bsd.Text.{Text}

-- What the options leave alone.
abbrev pub core : Rule → ℕ × ℕ × Command × List ℕ × List ℕ
core rule = (rule.fw_number, rule.prot, rule.command, rule.src_ports, rule.dst_ports)

abbrev pub IsKept : Libc → Rule → Progress → Type 0
IsKept libc rule p = (core p.rule ≡ core rule) × All (IsType libc) p.rule.icmptypes

abbrev Keeps : Libc → Rule → Step → Type 0
Keeps libc rule = Holds (λ next. IsKept libc rule next.0)

module _ (libc : Libc) (p : Progress) (typed : All (IsType libc) p.rule.icmptypes) where
  -- A step that reads something first, and then sets other fields.
  reads {ℓ} :
      {V : Type ℓ} (first : Exit V) (next : V → Step)
      → ((v : V) → Keeps libc p.rule (next v))
      → Keeps libc p.rule (first >>= next)
  reads first next k = Holds->>= _ _ first next (Holds-any first) (λ v _. k v)

  uid_option-Keeps : (av : List Text) → Keeps libc p.rule (uid_option libc p av)
  unfolding uid_option
  uid_option-Keeps [] = tt
  uid_option-Keeps (word ∷ av) =
      reads (look_up libc.getpwuid libc.getpwnam word) _ (λ id. (refl, typed))

  gid_option-Keeps : (av : List Text) → Keeps libc p.rule (gid_option libc p av)
  unfolding gid_option
  gid_option-Keeps [] = tt
  gid_option-Keeps (word ∷ av) =
      reads (look_up libc.getgrgid libc.getgrnam word) _ (λ id. (refl, typed))

  keep_option-Keeps : (av : List Text) → Keeps libc p.rule (keep_option p av)
  unfolding keep_option
  keep_option-Keeps [] = (refl, typed)
  keep_option-Keeps (word ∷ av) = elim (Bool-cases (atoi word == 0)) [
    | inl e ↦ rw (e, keep_option) (refl, typed)
    | inr e ↦ rw (e, keep_option) (refl, typed)
  ]

  xmit_option-Keeps : (av : List Text) → Keeps libc p.rule (xmit_option libc p av)
  unfolding xmit_option
  xmit_option-Keeps av = elim (Bool-cases p.saw_via) [
    | inl e ↦ rw (e, xmit_option) tt
    | inr e ↦ rw (e, xmit_option) (reads (fill_iface libc av) _ (λ ifu. (refl, typed)))
  ]

  recv_option-Keeps : (av : List Text) → Keeps libc p.rule (recv_option libc p av)
  unfolding recv_option
  recv_option-Keeps av = elim (Bool-cases p.saw_via) [
    | inl e ↦ rw (e, recv_option) tt
    | inr e ↦ rw (e, recv_option) (reads (fill_iface libc av) _ (λ ifu. (refl, typed)))
  ]

  via_option-Keeps : (av : List Text) → Keeps libc p.rule (via_option libc p av)
  unfolding via_option
  via_option-Keeps av = elim (Bool-cases p.saw_xmrc) [
    | inl e ↦ rw (e, via_option) tt
    | inr e ↦ rw (e, via_option) (reads (fill_iface libc av) _ (λ ifu. (refl, typed)))
  ]

  ipoptions_option-Keeps : (av : List Text) → Keeps libc p.rule (ipoptions_option p av)
  unfolding ipoptions_option
  ipoptions_option-Keeps [] = tt
  ipoptions_option-Keeps (word ∷ av) = (refl, typed)

  tcpflags_option-Keeps : (av : List Text) → Keeps libc p.rule (tcpflags_option p av)
  unfolding tcpflags_option
  tcpflags_option-Keeps [] = tt
  tcpflags_option-Keeps (word ∷ av) =
      reads (fill_tcpflag (p.rule.tcpf, p.rule.tcpnf) word) _ (λ bits. (refl, typed))

  tcpopts_option-Keeps : (av : List Text) → Keeps libc p.rule (tcpopts_option p av)
  unfolding tcpopts_option
  tcpopts_option-Keeps [] = tt
  tcpopts_option-Keeps (word ∷ av) =
      reads (fill_tcpopts (p.rule.tcpopt, p.rule.tcpnopt) word) _ (λ bits. (refl, typed))

  icmptypes_option-Keeps : (av : List Text) → Keeps libc p.rule (icmptypes_option libc p av)
  unfolding icmptypes_option
  icmptypes_option-Keeps [] = tt
  icmptypes_option-Keeps (word ∷ av) =
      Holds->>= (All (IsType libc)) _ (fill_icmptypes libc p.rule.icmptypes word) _
        (Holds-of (All (IsType libc)) _
          (λ all e. fill_icmptypes-IsType libc p.rule.icmptypes word all typed e))
        (λ types h. (refl, h))

  limit_rest-Keeps :
      (av rest : List Text) → (read_masks [] av).1 ≡ rest → Keeps libc p.rule (limit_option p av)
  unfolding limit_option
  limit_rest-Keeps av [] e = rw (e, limit_option) tt
  limit_rest-Keeps av (word ∷ rest) e =
      elim (Bool-cases (atoi word == 0 || length (read_masks [] av).0 == 0)) [
        | inl c ↦ rw (e, limit_option) (rw c tt)
        | inr c ↦ rw (e, limit_option) (rw c (refl, typed))
      ]

  pub option_step-Keeps :
      (word : Text) (av : List Text) → Keeps libc p.rule (option_step libc p word av)
  unfolding option_step tcp_keyword icmp_keyword
  option_step-Keeps word av = ground (
    arith,
    typed,
    uid_option-Keeps av,
    gid_option-Keeps av,
    limit_rest-Keeps av (read_masks [] av).1 refl,
    keep_option-Keeps av,
    xmit_option-Keeps av,
    recv_option-Keeps av,
    via_option-Keeps av,
    ipoptions_option-Keeps av,
    tcpflags_option-Keeps av,
    tcpopts_option-Keeps av,
    icmptypes_option-Keeps av,
  )

pub options-IsKept :
    (libc : Libc) (rule : Rule) (fuel : ℕ) (p : Progress) (av : List Text)
    → IsKept libc rule p
    → Holds (IsKept libc rule) (options libc fuel p av)
unfolding options
options-IsKept libc rule fuel p [] h = h
options-IsKept libc rule zero p (word ∷ av) h = tt
options-IsKept libc rule (suc fuel) p (word ∷ av) h =
    Holds->>= _ _ (option_step libc p word av) _ (option_step-Keeps libc p h.1 word av)
      (λ next k. options-IsKept libc rule fuel next.0 next.1 (k.0 ∙ h.0, k.1))
