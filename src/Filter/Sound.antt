-- ===== src/Filter/Sound.antt =====
-- What holds of the form after every key: the boxes show the rule and light a row that exists, the
-- rule is one that the form offers, and the edited lines are as short as the fields.
use closed_bsd.Base.{ℕ, ◌≤◌, ◌≡◌, inl, inr, List, [], ◌∷◌, arith, ◌==◌, length, All, Bool-cases}
use mathlib.Core.Path.{subst}
use closed_bsd.Keyboard.{Edit}
use closed_bsd.Fault.{Result, ok, ok-injective, >>=-eq-ok}
use closed_bsd.Filter.Down.{
  Stop, at_key, in_field, Next, again, stay, inputs, step_down, approach, redirect, leads_to_field,
  down, edited,
}
use closed_bsd.Filter.Form.{Form, initial}
use closed_bsd.Filter.Keys.{left, right, up, step_up, tab, space}
use closed_bsd.Rules.Ruleset.{Action, allow, deny, divert, fwd, reset}
use closed_bsd.Text.{Text}

-- The actions that the form offers.
abbrev pub IsOffered : Action → Type 0
IsOffered allow = Unit
IsOffered deny = Unit
IsOffered reset = Unit
IsOffered divert = ⊥
IsOffered fwd = ⊥

-- `junk` is what the stack held in the fields that the form never writes.
pub record IsSound (junk : Text) (f : Form) : Type 0 where
  pub action_shown : f.screen.action_shown ≡ f.rule.action
  pub proto_shown : f.screen.proto_shown ≡ f.rule.proto
  pub iface_shown : f.screen.iface_shown ≡ f.rule.ifs
  pub option_shown : f.screen.option_shown ≡ f.rule.option
  pub option_proto_shown : f.screen.option_proto_shown ≡ f.rule.proto
  pub offered : IsOffered f.rule.action
  pub option_bound : f.rule.option ≤ 3
  pub iface_row_bound : f.screen.iface_row ≤ 3
  pub option_row_bound : f.screen.option_row ≤ 4
  pub unwritten : f.rule.other_a ≡ junk
  pub src_short : length f.src ≤ 33
  pub dst_short : length f.dst ≤ 33
  pub src_port_short : length f.src_port ≤ 4
  pub dst_port_short : length f.dst_port ≤ 4

-- An address line is at most 33 bytes, the length that `inputs` allows line_edit.
abbrev pub IsLine : Edit → Type 0
IsLine e = length e.text ≤ 33

pub initial-IsSound : (junk : Text) → IsSound junk (initial junk)
unfolding initial
initial-IsSound junk = ground arith

module _ {junk : Text} where
  step_down-IsSound : (p : ℕ) (f : Form) → IsSound junk f → IsSound junk (step_down p f).1
  unfolding step_down
  step_down-IsSound p f h = ground arith

  approach-IsSound : (p : ℕ) (f : Form) → IsSound junk f → IsSound junk (approach p f).1
  unfolding approach
  approach-IsSound p f h = ground arith

  pub left-IsSound : (p : ℕ) (f : Form) → IsSound junk f → IsSound junk (left p f).1
  unfolding left
  left-IsSound p f h = ground arith

  pub right-IsSound : (p : ℕ) (f : Form) → IsSound junk f → IsSound junk (right p f).1
  unfolding right
  right-IsSound p f h = ground arith

  pub tab-IsSound : (p : ℕ) (f : Form) → IsSound junk f → IsSound junk (tab p f).1
  unfolding tab
  tab-IsSound p f h = ground arith

  pub space-IsSound : (p : ℕ) (f : Form) → IsSound junk f → IsSound junk (space p f)
  unfolding space
  space-IsSound p f h = ground arith

  inputs-IsSound :
      (p : ℕ) (e : Edit) (f : Form) {r : Form × ℕ}
      → IsSound junk f
      → IsLine e
      → inputs p e f ≡ ok r
      → IsSound junk r.0
  unfolding inputs
  inputs-IsSound p e f h l eq = ground arith

  step_up-IsSound : (p : ℕ) (f : Form) → IsSound junk f → IsSound junk (step_up p f).1
  unfolding step_up
  step_up-IsSound p f h = ground arith

-- Where KEY_DOWN stops, the form is sound, and so is every line not yet used.
abbrev pub StopIsSound : Text → Stop → Type 0
StopIsSound junk (at_key p f edits) = IsSound junk f × All IsLine edits
StopIsSound junk (in_field p f) = IsSound junk f

module _ {junk : Text} where
  edited-IsSound :
      (p : ℕ) (n : Next) (f : Form) (edits : List Edit) (go : ℕ → Form → Result Stop) {s : Stop}
      → ((q : ℕ) → go q f ≡ ok s → StopIsSound junk s)
      → IsSound junk f
      → All IsLine edits
      → edited p n f edits go ≡ ok s
      → StopIsSound junk s
  edited-IsSound p (again q) f edits go ih h l eq = ih q eq
  edited-IsSound p stay f edits go ih h l eq = subst (StopIsSound junk) (ok-injective eq) (h, l)

  -- From a sound form and lines that fit, KEY_DOWN stops with a sound form.
  pub down-IsSound :
      (edits : List Edit) (p : ℕ) (f : Form) {s : Stop}
      → IsSound junk f
      → All IsLine edits
      → down edits p f ≡ ok s
      → StopIsSound junk s
  unfolding down
  down-IsSound [] p f h l eq = elim (Bool-cases (leads_to_field p)) [
    | inl e ↦ subst (StopIsSound junk) (ok-injective (rw (e, down) at eq)) (approach-IsSound p f h)
    | inr e ↦
        subst (StopIsSound junk) (ok-injective (rw (e, down) at eq)) (step_down-IsSound p f h, tt)
  ]
  down-IsSound (e ∷ edits) p f {s} h l eq = elim (Bool-cases (leads_to_field p)) [
    | inl y ↦
        let (q, g) = approach p f in
        let (r, read, rest) =
          >>=-eq-ok (inputs q e g)
            (λ (r : Form × ℕ). edited q (redirect q r.1) r.0 edits (down edits))
            (rw (y, down) at eq) in
        let sound = inputs-IsSound q e g (approach-IsSound p f h) l.0 read in
        edited-IsSound q (redirect q r.1) r.0 edits (down edits)
          (λ k. down-IsSound edits k r.0 {s = s} sound l.1) sound l.1 rest
    | inr n ↦
        subst (StopIsSound junk) (ok-injective (rw (n, down) at eq)) (step_down-IsSound p f h, l)
  ]

  pub up-IsSound :
      (edits : List Edit) (p : ℕ) (f : Form) {s : Stop}
      → IsSound junk f
      → All IsLine edits
      → up edits p f ≡ ok s
      → StopIsSound junk s
  unfolding up
  up-IsSound edits p f {s} h l eq = elim (Bool-cases (p == 12)) [
    | inl a ↦ down-IsSound edits 10 f h l (rw (a, up) at eq)
    | inr a ↦ elim (Bool-cases (p == 13)) [
      | inl b ↦ down-IsSound edits 11 f h l (rw b at (rw (a, up) at eq))
      | inr b ↦
          subst (StopIsSound junk) (ok-injective (rw b at (rw (a, up) at eq)))
            (step_up-IsSound p f h, l)
    ]
  ]
