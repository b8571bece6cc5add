-- ===== src/PortForward/Sound.antt =====
-- What holds of the form for forwards after every key.
use closed_bsd.Base.{
  ℕ, ◌+◌, ◌≤◌, ◌≡◌, ◌⊎◌, inl, inr, true, false, List, [], ◌∷◌, arith, ◌==◌, length, All, Bool-cases,
}
use mathlib.Core.Path.{subst}
use closed_bsd.Fault.{ok, ok-injective, >>=-eq-ok}
use closed_bsd.Keyboard.{Edit}
use closed_bsd.PortForward.Down.{
  Stop, at_key, in_field, down, step_down, forw_input, approach, redirect, leads_to_field,
}
use closed_bsd.PortForward.Loop.{left, right, up, step_up, space}
use closed_bsd.PortForward.{Form, Stack, initial}
use closed_bsd.Rules.Ruleset.{fwd, tcp, udp}

pub record IsSound (f : Form) : Type 0 where
  pub forwards : f.rule.action ≡ fwd
  pub has_ports : (f.rule.proto ≡ tcp) ⊎ (f.rule.proto ≡ udp)
  pub proto_shown : f.proto_shown ≡ f.rule.proto
  pub src_short : length f.src ≤ 33
  pub dst_short : length f.dst ≤ 33
  pub forw_short : length f.forw ≤ 33
  pub src_port_short : length f.src_port ≤ 4
  pub dst_port_short : length f.dst_port ≤ 4
  pub forw_port_short : length f.forw_port ≤ 4

-- A line is at most 33 bytes, the length that `forw_input` allows line_edit.
abbrev pub IsLine : Edit → Type 0
IsLine e = length e.text ≤ 33

-- The cursors at which the loop waits for a key: the two protocols and the two buttons.
abbrev pub IsPlace : ℕ → Type 0
IsPlace p = (p ≡ 1) ⊎ (p ≡ 2) ⊎ (p ≡ 9) ⊎ (p ≡ 10)

abbrev pub StopIsSound : Stop → Type 0
StopIsSound (at_key p f edits) = IsPlace p × IsSound f × All IsLine edits
StopIsSound (in_field p f) = (3 ≤ p) × (p ≤ 8) × IsSound f

pub initial-IsSound : (stack : Stack) → IsSound (initial stack)
unfolding initial
initial-IsSound stack = ground arith

step_down-IsSound : (p : ℕ) (f : Form) → IsSound f → IsSound (step_down p f).1
unfolding step_down
step_down-IsSound p f h = ground arith

step_down-IsPlace :
    (p : ℕ) (f : Form) → 1 ≤ p → p ≤ 10 → leads_to_field p ≡ false → IsPlace (step_down p f).0
unfolding step_down
step_down-IsPlace p f l u n = ground arith

approach-IsSound : (p : ℕ) (f : Form) → IsSound f → IsSound (approach p f)
approach-IsSound p f h = ground arith

pub left-IsSound :
    (p : ℕ) (f : Form) → IsPlace p → IsSound f → IsPlace (left p f).0 × IsSound (left p f).1
unfolding left
left-IsSound p f q h = ground arith

pub right-IsSound :
    (p : ℕ) (f : Form) → IsPlace p → IsSound f → IsPlace (right p f).0 × IsSound (right p f).1
unfolding right
right-IsSound p f q h = ground arith

pub space-IsSound : (p : ℕ) (f : Form) → IsSound f → IsSound (space p f)
unfolding space
space-IsSound p f h = ground arith

step_up-IsSound :
    (p : ℕ) (f : Form)
    → IsPlace p
    → (p == 9) ≡ false
    → (p == 10) ≡ false
    → IsSound f
    → IsPlace (step_up p f).0 × IsSound (step_up p f).1
unfolding step_up
step_up-IsSound p f q m n h = ground arith

forw_input-IsSound :
    (p : ℕ) (e : Edit) (f : Form) {r : Form × ℕ}
    → IsSound f
    → IsLine e
    → forw_input p e f ≡ ok r
    → IsSound r.0
unfolding forw_input
forw_input-IsSound p e f h l eq = ground arith

redirect-bounds :
    (p ret : ℕ) → leads_to_field p ≡ true → (1 ≤ redirect (p + 1) ret) × (redirect (p + 1) ret ≤ 8)
redirect-bounds p ret y = ground arith

field-bounds : (p : ℕ) → leads_to_field p ≡ true → (3 ≤ p + 1) × (p + 1 ≤ 8)
field-bounds p y = ground arith

-- From a sound form and lines that fit, KEY_DOWN stops at one of the four places, or in a field for
-- which there is no line, with a sound form.
pub down-IsSound :
    (edits : List Edit) (p : ℕ) (f : Form) {s : Stop}
    → 1 ≤ p
    → p ≤ 10
    → IsSound f
    → All IsLine edits
    → down edits p f ≡ ok s
    → StopIsSound s
unfolding down
down-IsSound [] p f {s} a b h l eq = elim (Bool-cases (leads_to_field p)) [
  | inl y ↦
      let (m, n) = field-bounds p y in
      subst StopIsSound (ok-injective (rw (y, down) at eq)) (m, n, approach-IsSound p f h)
  | inr n ↦
      subst StopIsSound (ok-injective (rw (n, down) at eq))
        (step_down-IsPlace p f a b n, step_down-IsSound p f h, tt)
]
down-IsSound (e ∷ edits) p f {s} a b h l eq = elim (Bool-cases (leads_to_field p)) [
  | inl y ↦
      let (r, read, rest) =
        >>=-eq-ok (forw_input (p + 1) e (approach p f))
          (λ (r : Form × ℕ). down edits (redirect (p + 1) r.1) r.0) (rw (y, down) at eq) in
      let sound = forw_input-IsSound (p + 1) e (approach p f) (approach-IsSound p f h) l.0 read in
      let (m, n) = redirect-bounds p r.1 y in
      down-IsSound edits (redirect (p + 1) r.1) r.0 {s = s} m (omega (arith, n)) sound l.1 rest
  | inr n ↦
      subst StopIsSound (ok-injective (rw (n, down) at eq))
        (step_down-IsPlace p f a b n, step_down-IsSound p f h, l)
]

pub up-IsSound :
    (edits : List Edit) (p : ℕ) (f : Form) {s : Stop}
    → IsPlace p
    → IsSound f
    → All IsLine edits
    → up edits p f ≡ ok s
    → StopIsSound s
unfolding up
up-IsSound edits p f {s} q h l eq = elim (Bool-cases (p == 9)) [
  | inl a ↦ down-IsSound edits 7 _ (omega arith) (omega arith) (ground arith) l (rw (a, up) at eq)
  | inr a ↦ elim (Bool-cases (p == 10)) [
    | inl c ↦
        down-IsSound edits 8 _ (omega arith) (omega arith) (ground arith) l
          (rw c at (rw (a, up) at eq))
    | inr c ↦
        let (place, sound) = step_up-IsSound p f q a c h in
        subst StopIsSound (ok-injective (rw c at (rw (a, up) at eq))) (place, sound, l)
  ]
]
