-- ===== src/Ipfw/Options/Ends.antt =====
-- The loops of `add` come to an end: each round of the loop over the options, and each round of
-- the one over the ICMP types, leaves less to read.
use closed_bsd.Base.{
  ℕ, zero, suc, ◌≤◌, ◌<◌, ◌≡◌, refl, ◌⊎◌, inl, inr, true, List, [], ◌∷◌, ◌++◌, arith, length, ◌==◌,
  Bool-cases, Option, none, some, Option-cases,
}
use closed_bsd.Ipfw.Exits.{Exit, done, errx, undefined, out_of_fuel, Ends, ◌>>=◌}
use closed_bsd.Ipfw.Flags.{
  past_comma, ends_number, icmp_loop, fill_icmptypes, fill_bits, fill_tcpflag, fill_tcpopts,
  tcp_flags, tcp_options,
}
use closed_bsd.Ipfw.Fields.{row_of, negated}
use closed_bsd.Ipfw.Iface.{fill_iface}
use closed_bsd.Ipfw.Rule.{LimitMask}
use closed_bsd.Ipfw.Libc.{Libc}
use closed_bsd.Ipfw.Numbers.Rest.{strtoul-rest}
use closed_bsd.Ipfw.Numbers.{strtoul}
use closed_bsd.Ipfw.Options.{
  Progress, Step, found_id, look_up, uid_option, gid_option, limit_masks, read_masks, limit_option,
  keep_option, behind, xmit_option, recv_option, via_option, ipoptions_option, tcpflags_option,
  tcpopts_option, icmptypes_option, tcp_keyword, icmp_keyword, option_step, options,
}
use closed_bsd.Text.{Text}

-- Behind a number that ends well there is less than there was before its comma.
strtoul-past_comma :
    (c : ℕ) (cs : Text)
    → ends_number (strtoul (past_comma (c ∷ cs))).1 ≡ true
    → length (strtoul (past_comma (c ∷ cs))).1 ≤ length cs
unfolding past_comma ends_number
strtoul-past_comma c cs h = elim (Bool-cases (c == b',')) [
  | inl e ↦ rw (e, past_comma, length) (shorter cs (strtoul-rest cs))
  | inr e ↦ ground (arith, strtoul-rest (c ∷ cs))
]
  where
    shorter :
        (s : Text)
        → ((strtoul s).1 ≡ s) ⊎ (length (strtoul s).1 < length s)
        → length (strtoul s).1 ≤ length s
    shorter s (inl e) = rw e (omega arith)
    shorter s (inr h) = omega arith

icmp_loop-Ends :
    (libc : Libc) (fuel : ℕ) (types : List ℕ) (s : Text)
    → length s ≤ fuel
    → Ends (icmp_loop libc fuel types s)
unfolding icmp_loop
icmp_loop-Ends libc fuel types [] h = tt
icmp_loop-Ends libc zero types (c ∷ cs) h = absurd (omega arith)
icmp_loop-Ends libc (suc fuel) types (c ∷ cs) h = ground (
  arith,
  strtoul-past_comma c cs,
  icmp_loop-Ends libc fuel (types ++ (strtoul (past_comma (c ∷ cs))).0 ∷ [])
      (strtoul (past_comma (c ∷ cs))).1,
)

pub fill_icmptypes-Ends :
    (libc : Libc) (types : List ℕ) (s : Text) → Ends (fill_icmptypes libc types s)
unfolding fill_icmptypes
fill_icmptypes-Ends libc types s = icmp_loop-Ends libc (length s) types s (omega arith)

fill_bits-Ends {ℓ} :
    {A : Type ℓ} (table : List (Text × A)) (fs : List Text) (bits : List A × List A)
    → Ends (fill_bits table bits fs)
unfolding fill_bits
fill_bits-Ends table [] bits = tt
fill_bits-Ends table (field ∷ rest) bits = elim (Option-cases (row_of (negated field).1 table)) [
  | inl e ↦ rw (e, fill_bits) tt
  | inr (bit, e) ↦ rw (e, fill_bits) (fill_bits-Ends table rest _)
]

-- A round ends the program, or leaves no more than there was behind its word.
abbrev IsStep : List Text → Step → Type 0
IsStep av (done next) = length next.1 ≤ length av
IsStep av (errx _) = Unit
IsStep av undefined = Unit
IsStep av out_of_fuel = ⊥

>>=-IsStep {ℓ} :
    {V : Type ℓ} (av : List Text) (first : Exit V) (next : V → Step)
    → Ends first
    → ((v : V) → IsStep av (next v))
    → IsStep av (first >>= next)
>>=-IsStep av (done v) next h k = k v
>>=-IsStep av (errx _) next h k = tt
>>=-IsStep av undefined next h k = tt
>>=-IsStep av out_of_fuel next h k = absurd h

found_id-Ends : (o : Option ℕ) → Ends (found_id o)
found_id-Ends none = tt
found_id-Ends (some id) = tt

fill_iface-Ends : (libc : Libc) (av : List Text) → Ends (fill_iface libc av)
unfolding fill_iface
fill_iface-Ends libc [] = tt
fill_iface-Ends libc (arg ∷ args) = ground arith

behind-length : (av : List Text) → length (behind av) ≤ length av
behind-length [] = omega arith
behind-length (word ∷ av) = omega arith

module _ (libc : Libc) (p : Progress) where
  uid_option-IsStep : (av : List Text) → IsStep av (uid_option libc p av)
  unfolding uid_option
  uid_option-IsStep [] = tt
  uid_option-IsStep (word ∷ av) =
      >>=-IsStep (word ∷ av) (look_up libc.getpwuid libc.getpwnam word) _ (found_id-Ends _)
        (λ id. omega arith)

  gid_option-IsStep : (av : List Text) → IsStep av (gid_option libc p av)
  unfolding gid_option
  gid_option-IsStep [] = tt
  gid_option-IsStep (word ∷ av) =
      >>=-IsStep (word ∷ av) (look_up libc.getgrgid libc.getgrnam word) _ (found_id-Ends _)
        (λ id. omega arith)

  keep_option-IsStep : (av : List Text) → IsStep av (keep_option p av)
  unfolding keep_option
  keep_option-IsStep [] = omega arith
  keep_option-IsStep (word ∷ av) = ground arith

  xmit_option-IsStep : (av : List Text) → IsStep av (xmit_option libc p av)
  unfolding xmit_option
  xmit_option-IsStep av = elim (Bool-cases p.saw_via) [
    | inl e ↦ rw (e, xmit_option) tt
    | inr e ↦
        rw (e, xmit_option)
          (>>=-IsStep av (fill_iface libc av) _ (fill_iface-Ends libc av) (λ ifu. behind-length av))
  ]

  recv_option-IsStep : (av : List Text) → IsStep av (recv_option libc p av)
  unfolding recv_option
  recv_option-IsStep av = elim (Bool-cases p.saw_via) [
    | inl e ↦ rw (e, recv_option) tt
    | inr e ↦
        rw (e, recv_option)
          (>>=-IsStep av (fill_iface libc av) _ (fill_iface-Ends libc av) (λ ifu. behind-length av))
  ]

  via_option-IsStep : (av : List Text) → IsStep av (via_option libc p av)
  unfolding via_option
  via_option-IsStep av = elim (Bool-cases p.saw_xmrc) [
    | inl e ↦ rw (e, via_option) tt
    | inr e ↦
        rw (e, via_option)
          (>>=-IsStep av (fill_iface libc av) _ (fill_iface-Ends libc av) (λ ifu. behind-length av))
  ]

  ipoptions_option-IsStep : (av : List Text) → IsStep av (ipoptions_option p av)
  unfolding ipoptions_option
  ipoptions_option-IsStep [] = tt
  ipoptions_option-IsStep (word ∷ av) = omega arith

  tcpflags_option-IsStep : (av : List Text) → IsStep av (tcpflags_option p av)
  unfolding tcpflags_option fill_tcpflag
  tcpflags_option-IsStep [] = tt
  tcpflags_option-IsStep (word ∷ av) =
      >>=-IsStep (word ∷ av) (fill_tcpflag (p.rule.tcpf, p.rule.tcpnf) word) _
        (fill_bits-Ends tcp_flags _ _) (λ bits. omega arith)

  tcpopts_option-IsStep : (av : List Text) → IsStep av (tcpopts_option p av)
  unfolding tcpopts_option fill_tcpopts
  tcpopts_option-IsStep [] = tt
  tcpopts_option-IsStep (word ∷ av) =
      >>=-IsStep (word ∷ av) (fill_tcpopts (p.rule.tcpopt, p.rule.tcpnopt) word) _
        (fill_bits-Ends tcp_options _ _) (λ bits. omega arith)

  icmptypes_option-IsStep : (av : List Text) → IsStep av (icmptypes_option libc p av)
  unfolding icmptypes_option
  icmptypes_option-IsStep [] = tt
  icmptypes_option-IsStep (word ∷ av) =
      >>=-IsStep (word ∷ av) (fill_icmptypes libc p.rule.icmptypes word) _
        (fill_icmptypes-Ends libc p.rule.icmptypes word) (λ types. omega arith)

read_masks-length :
    (masks : List LimitMask) (av : List Text) → length (read_masks masks av).1 ≤ length av
unfolding read_masks
read_masks-length masks [] = omega arith
read_masks-length masks (word ∷ []) = omega arith
read_masks-length masks (word ∷ next ∷ av) = elim (Option-cases (row_of word limit_masks)) [
  | inl e ↦ rw (e, read_masks, length) (omega arith)
  | inr (mask, e) ↦
      rw (e, read_masks, length) (omega (arith, read_masks-length (masks ++ mask ∷ []) (next ∷ av)))
]

limit_rest-IsStep :
    (p : Progress) (av : List Text) (read : List LimitMask × List Text)
    → read_masks [] av ≡ read
    → length read.1 ≤ length av
    → IsStep av (limit_option p av)
unfolding limit_option
limit_rest-IsStep p av (masks, []) e h = rw (e, limit_option) tt
limit_rest-IsStep p av (masks, word ∷ rest) e h = rw (e, limit_option) (ground arith)

limit_option-IsStep : (p : Progress) (av : List Text) → IsStep av (limit_option p av)
limit_option-IsStep p av = limit_rest-IsStep p av _ refl (read_masks-length [] av)

option_step-IsStep :
    (libc : Libc) (p : Progress) (word : Text) (av : List Text)
    → IsStep av (option_step libc p word av)
unfolding option_step tcp_keyword icmp_keyword
option_step-IsStep libc p word av = ground (
  arith,
  uid_option-IsStep libc p av,
  gid_option-IsStep libc p av,
  limit_option-IsStep p av,
  keep_option-IsStep libc p av,
  xmit_option-IsStep libc p av,
  recv_option-IsStep libc p av,
  via_option-IsStep libc p av,
  ipoptions_option-IsStep libc p av,
  tcpflags_option-IsStep libc p av,
  tcpopts_option-IsStep libc p av,
  icmptypes_option-IsStep libc p av,
)

rounds-Ends :
    (libc : Libc) (fuel : ℕ) (step : Step) (av : List Text)
    → IsStep av step
    → length av ≤ fuel
    → ((p : Progress) (rest : List Text) → length rest ≤ fuel → Ends (options libc fuel p rest))
    → Ends (step >>= λ next. options libc fuel next.0 next.1)
rounds-Ends libc fuel (done next) av h n k = k next.0 next.1 (omega arith)
rounds-Ends libc fuel (errx _) av h n k = tt
rounds-Ends libc fuel undefined av h n k = tt
rounds-Ends libc fuel out_of_fuel av h n k = h

-- The loop over the options does not run out of fuel that counts the words that are left.
pub options-Ends :
    (libc : Libc) (fuel : ℕ) (p : Progress) (av : List Text)
    → length av ≤ fuel
    → Ends (options libc fuel p av)
unfolding options
options-Ends libc fuel p [] h = tt
options-Ends libc zero p (word ∷ av) h = absurd (omega arith)
options-Ends libc (suc fuel) p (word ∷ av) h =
    rounds-Ends libc fuel (option_step libc p word av) av (option_step-IsStep libc p word av)
      (omega arith) (λ q rest n. options-Ends libc fuel q rest n)
