-- ===== src/Ipfw/Sane/Finish.antt =====
-- The checks behind the options leave a rule that goes somewhere, and that does not match fragments
-- by ports or TCP flags.
use closed_bsd.Base.{◌+◌, ◌≡◌, refl, inl, inr, Bool, true, ◌||◌, arith, length, Bool-cases}
use closed_bsd.Ipfw.Add.{both_ways, check_via, check_frag, read_limit, logged, finish}
use closed_bsd.Ipfw.Exits.{Holds, Holds->>=, Holds-any}
use closed_bsd.Ipfw.Libc.{Libc}
use closed_bsd.Ipfw.Options.{Progress}
use closed_bsd.Ipfw.Rule.{Rule}
use closed_bsd.Ipfw.Sane.Options.{core}

-- The fields that the checks leave alone.
abbrev pub IsLeft : Rule → Rule → Type 0
IsLeft before rule = (core rule ≡ core before) × (rule.icmptypes ≡ before.icmptypes)

abbrev pub Goes : Rule → Type 0
Goes rule = (rule.incoming || rule.outgoing) ≡ true

-- A rule for fragments has neither ports nor TCP flags.
abbrev pub IsWhole : Rule → Type 0
IsWhole rule =
    rule.frag ≡ true
    → (length rule.tcpf + length rule.tcpnf ≡ 0)
      × (length rule.src_ports + length rule.dst_ports ≡ 0)

both_ways-Goes : (rule : Rule) → IsLeft rule (both_ways rule) × Goes (both_ways rule)
unfolding both_ways
both_ways-Goes rule = elim (Bool-cases (rule.incoming || rule.outgoing)) [
  | inl e ↦ rw (e, both_ways) ((refl, refl), e)
  | inr e ↦ rw (e, both_ways) ((refl, refl), refl)
]

check_via-Goes :
    (saw : Bool) (before rule : Rule)
    → IsLeft before rule × Goes rule
    → Holds (λ r. IsLeft before r × Goes r) (check_via saw rule)
unfolding check_via
check_via-Goes saw before rule h = ground arith

check_frag-IsWhole :
    (before rule : Rule)
    → IsLeft before rule × Goes rule
    → Holds (λ r. IsLeft before r × Goes r × IsWhole r) (check_frag rule)
unfolding check_frag
check_frag-IsWhole before rule h = ground arith

read_limit-IsWhole :
    (libc : Libc) (before rule : Rule)
    → IsLeft before rule × Goes rule × IsWhole rule
    → Holds (λ r. IsLeft before r × Goes r × IsWhole r) (read_limit libc rule)
unfolding read_limit
read_limit-IsWhole libc before rule h = elim (Bool-cases rule.prn) [
  | inr e ↦ rw (e, read_limit) h
  | inl e ↦
      rw (e, read_limit)
        (Holds->>= (λ n. Unit) _ (logged libc rule.logamount) _
          (Holds-any (logged libc rule.logamount)) (λ n _. h))
]

pub finish-IsWhole :
    (libc : Libc) (p : Progress) → Holds (λ r. IsLeft p.rule r × Goes r × IsWhole r) (finish libc p)
unfolding finish
finish-IsWhole libc p =
    Holds->>= (λ r. IsLeft p.rule r × Goes r) _ (check_via p.saw_via (both_ways p.rule)) _
      (check_via-Goes p.saw_via p.rule (both_ways p.rule) (both_ways-Goes p.rule))
      (λ rule h.
        Holds->>= (λ r. IsLeft p.rule r × Goes r × IsWhole r) _ (check_frag rule) _
          (check_frag-IsWhole p.rule rule h) (λ rule k. read_limit-IsWhole libc p.rule rule k))
