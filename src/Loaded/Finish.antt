-- ===== src/Loaded/Finish.antt =====
-- The checks behind the option loop.
use closed_bsd.Base.{ℕ, ◌≡◌, refl, arith, if◌then◌else◌}
use closed_bsd.Ipfw.Add.{both_ways, check_via, check_frag, read_limit, finish}
use closed_bsd.Ipfw.Exits.{done, errx, ex_dataerr}
use closed_bsd.Ipfw.Libc.{Libc}
use closed_bsd.Loaded.Options.{begun, flowing}
use closed_bsd.Loaded.Spec.{Endpoints, hosted, with_flow, with_option, redirect, clashes}
use closed_bsd.Rules.Ruleset.{Action, Proto, ip, tcp, udp, icmp, Flow, any, incoming, outgoing}

module _ (libc : Libc) (a : Action) (e : Endpoints) where
  abbrev pub IsFinished : Flow → Proto → ℕ → Type 0
  IsFinished f p o = finish libc (begun (with_option redirect p o (flowing f (hosted a p e)))) ≡ (
      if clashes p o e
      then errx ex_dataerr
      else done (with_option redirect p o (with_flow f (hosted a p e))))

  finish-ip : (f : Flow) (o : ℕ) → IsFinished f ip o
  unfolding finish both_ways check_via check_frag read_limit
  finish-ip any o = ground arith
  finish-ip incoming o = ground arith
  finish-ip outgoing o = ground arith

  finish-tcp : (f : Flow) (o : ℕ) → IsFinished f tcp o
  unfolding finish both_ways check_via check_frag read_limit
  finish-tcp any o = ground arith
  finish-tcp incoming o = ground arith
  finish-tcp outgoing o = ground arith

  finish-icmp : (f : Flow) (o : ℕ) → IsFinished f icmp o
  unfolding finish both_ways check_via check_frag read_limit
  finish-icmp any o = ground arith
  finish-icmp incoming o = ground arith
  finish-icmp outgoing o = ground arith

  finish-udp : (f : Flow) (o : ℕ) → IsFinished f udp o
  unfolding finish both_ways check_via check_frag read_limit
  finish-udp any o = refl
  finish-udp incoming o = refl
  finish-udp outgoing o = refl

  pub finish-hosted : (f : Flow) (p : Proto) (o : ℕ) → IsFinished f p o
  finish-hosted f ip o = finish-ip f o
  finish-hosted f tcp o = finish-tcp f o
  finish-hosted f udp o = finish-udp f o
  finish-hosted f icmp o = finish-icmp f o
