-- ===== src/PortForward/Session.antt =====
-- A whole session: the user types a forward from the first field to the last, and inserts it.
use closed_bsd.Base.{
  ℕ, ◌+◌, ◌<◌, ◌≡◌, refl, ◌∙◌, ◌≢◌, true, List, [], ◌∷◌, arith, lt→ltb, length, take-eq_of_le, inl,
}
use mathlib.Core.Path.{subst}
use closed_bsd.Fault.{ok}
use closed_bsd.Keyboard.Typed.{LeavesForwards, IsHost, IsPort}
use closed_bsd.Keyboard.{Edit, EditKey, edit_down, edit_up, edit_other, Key, key_down, enter}
use closed_bsd.PortForward.Commit.{press-Forwarded}
use closed_bsd.PortForward.Down.{
  at_key, down, step_down, forw_input, approach, redirect, leads_to_field, left_by,
}
use closed_bsd.PortForward.Loop.{added, entered, press, run, proto_forward}
use closed_bsd.PortForward.Sound.{IsSound}
use closed_bsd.PortForward.{Form, Stack, initial, default_rule, draw_proto, buttons}
use closed_bsd.Rules.Command.Forward.{fwd_text}
use closed_bsd.Rules.Ruleset.{Ruleset}
use closed_bsd.Rules.Script.Forwards.{Forwarded}
use closed_bsd.World.{World, rules}

left_by-redirect : (p : ℕ) (k : EditKey) → k ≢ edit_up → redirect p (left_by p k) ≡ p
left_by-redirect p edit_down h = ground arith
left_by-redirect p edit_up h = absurd (h refl)
left_by-redirect p edit_other h = ground arith

-- One round at a field that is left forwards.
down_forwards :
    (p : ℕ) (e : Edit) (edits : List Edit) (f g : Form)
    → leads_to_field p ≡ true
    → LeavesForwards e
    → forw_input (p + 1) e (approach p f) ≡ ok (g, left_by (p + 1) e.key)
    → down (e ∷ edits) p f ≡ down edits (p + 1) g
unfolding down
down_forwards p e edits f g y h r = rw (y, down) (rw r (rw (left_by-redirect (p + 1) e.key h) refl))

-- The form with its six fields typed, the cursor at OK.
abbrev pub filled : Form → Edit → Edit → Edit → Edit → Edit → Edit → Form
filled f s sp d dp t tp = record f {
  src = s.text;
  src_port = sp.text;
  dst = d.text;
  dst_port = dp.text;
  forw = t.text;
  forw_port = tp.text;
  proto_row = 0;
  proto_shown = f.rule.proto;
  button = 1;
}

type_src :
    (e : Edit) (f : Form)
    → length e.text < 128
    → forw_input 3 e f ≡ ok (record f { src = e.text }, left_by 3 e.key)
unfolding forw_input
type_src e f h = rw (lt→ltb (length e.text) 128 h) refl

type_src_port :
    (e : Edit) (f : Form)
    → length e.text < 5
    → forw_input 4 e f ≡ ok (record f { src_port = e.text }, left_by 4 e.key)
unfolding forw_input
type_src_port e f h = rw (lt→ltb (length e.text) 5 h) refl

type_dst :
    (e : Edit) (f : Form)
    → length e.text < 128
    → forw_input 5 e f ≡ ok (record f { dst = e.text }, left_by 5 e.key)
unfolding forw_input
type_dst e f h = rw (lt→ltb (length e.text) 128 h) refl

type_dst_port :
    (e : Edit) (f : Form)
    → length e.text < 5
    → forw_input 6 e f ≡ ok (record f { dst_port = e.text }, left_by 6 e.key)
unfolding forw_input
type_dst_port e f h = rw (lt→ltb (length e.text) 5 h) refl

type_forw :
    (e : Edit) (f : Form)
    → length e.text < 128
    → forw_input 7 e f ≡ ok (record f { forw = e.text }, left_by 7 e.key)
unfolding forw_input
type_forw e f h = rw (lt→ltb (length e.text) 128 h) refl

type_forw_port :
    (e : Edit) (f : Form)
    → length e.text < 5
    → forw_input 8 e f ≡ ok (record f { forw_port = e.text }, left_by 8 e.key)
unfolding forw_input
type_forw_port e f h = rw (lt→ltb (length e.text) 5 h) refl

-- A round of KEY_DOWN that stops at a key.
run-down :
    (ks : List Key) (edits : List Edit) (p : ℕ) (f : Form) (w : World) {q : ℕ} {g : Form}
    {more : List Edit}
    → down edits p f ≡ ok (at_key q g more)
    → run (key_down ∷ ks) edits p f w ≡ run ks more q g w
unfolding run press
run-down ks edits p f w e = rw e refl

module _ (s sp d dp t tp : Edit) where
  pub record AreTyped : Type 0 where
    pub src_host : IsHost s
    pub src_port : IsPort sp
    pub dst_host : IsHost d
    pub dst_port : IsPort dp
    pub forw_host : IsHost t
    pub forw_port : IsPort tp

  abbrev pub typed_edits : List Edit
  typed_edits = s ∷ sp ∷ d ∷ dp ∷ t ∷ tp ∷ []

  down-filled :
      (f : Form) → AreTyped → down typed_edits 2 f ≡ ok (at_key 9 (filled f s sp d dp t tp) [])
  unfolding down step_down
  down-filled f h =
      let f₃ = record f { proto_row = 0; proto_shown = f.rule.proto; src = s.text } in
      let f₄ = record f₃ { src_port = sp.text } in
      let f₅ = record f₄ { dst = d.text } in
      let f₆ = record f₅ { dst_port = dp.text } in
      let f₇ = record f₆ { forw = t.text } in
      let f₈ = record f₇ { button = 0; forw_port = tp.text } in
      down_forwards 2 s (sp ∷ d ∷ dp ∷ t ∷ tp ∷ []) f f₃ refl h.src_host.forwards
        (type_src s (draw_proto 0 f) (omega (arith, h.src_host.short)))
      ∙ down_forwards 3 sp (d ∷ dp ∷ t ∷ tp ∷ []) f₃ f₄ refl h.src_port.forwards
          (type_src_port sp f₃ (omega (arith, h.src_port.short)))
      ∙ down_forwards 4 d (dp ∷ t ∷ tp ∷ []) f₄ f₅ refl h.dst_host.forwards
          (type_dst d f₄ (omega (arith, h.dst_host.short)))
      ∙ down_forwards 5 dp (t ∷ tp ∷ []) f₅ f₆ refl h.dst_port.forwards
          (type_dst_port dp f₅ (omega (arith, h.dst_port.short)))
      ∙ down_forwards 6 t (tp ∷ []) f₆ f₇ refl h.forw_host.forwards
          (type_forw t f₆ (omega (arith, h.forw_host.short)))
      ∙ down_forwards 7 tp [] f₇ f₈ refl h.forw_port.forwards
          (type_forw_port tp (buttons 0 f₇) (omega (arith, h.forw_port.short)))

  abbrev pub typed_rule : Stack → Ruleset
  typed_rule stack = record (default_rule stack) {
    src = s.text;
    src_port = sp.text;
    dst = d.text;
    dst_port = dp.text;
    other_a = t.text;
    other_b = tp.text;
  }

  abbrev filled_form : Stack → Form
  filled_form stack = filled (draw_proto 2 (initial stack)) s sp d dp t tp

  filled-IsSound : (stack : Stack) → AreTyped → IsSound (filled_form stack)
  unfolding initial
  filled-IsSound stack h = record {
    forwards = refl;
    has_ports = inl refl;
    proto_shown = refl;
    src_short = h.src_host.short;
    dst_short = h.dst_host.short;
    forw_short = h.forw_host.short;
    src_port_short = h.src_port.short;
    dst_port_short = h.dst_port.short;
    forw_port_short = h.forw_port.short;
  }

  entered-typed_rule : (stack : Stack) → AreTyped → entered (filled_form stack) ≡ typed_rule stack
  unfolding entered initial
  entered-typed_rule stack h =
      rw
        (
          take-eq_of_le 127 s.text (omega (arith, h.src_host.short)),
          take-eq_of_le 4 sp.text h.src_port.short,
          take-eq_of_le 127 d.text (omega (arith, h.dst_host.short)),
          take-eq_of_le 4 dp.text h.dst_port.short,
          take-eq_of_le 255 t.text (omega (arith, h.forw_host.short)),
          take-eq_of_le 255 tp.text (omega (arith, h.forw_port.short)),
        )
        refl

  down_first :
      (stack : Stack)
      → down typed_edits 1 (initial stack)
        ≡ ok (at_key 2 (draw_proto 2 (initial stack)) typed_edits)
  unfolding down step_down
  down_first stack = refl

  -- The user goes down to the fields, types the three addresses (at most 33 bytes) and ports (at
  -- most 4 bytes), leaves each field by any key but KEY_UP, and presses return at OK, where the
  -- script can be opened: the form returns, and the script and the shell have got the command of
  -- the TCP forward that was typed.
  pub proto_forward-Forwarded :
      (stack : Stack) (w : World)
      → AreTyped
      → w.opens rules ≡ true
      → (w' : World) × (proto_forward stack (key_down ∷ key_down ∷ enter ∷ []) typed_edits w
          ≡ ok (added w'))
        × Forwarded (fwd_text (typed_rule stack)) w w'
  unfolding proto_forward run
  proto_forward-Forwarded stack w h o =
      let (w', pressed, forwarded) =
        press-Forwarded [] (filled_form stack) w (filled-IsSound stack h) o in
      (
        w',
        run-down (key_down ∷ enter ∷ []) typed_edits 1 (initial stack) w (down_first stack)
            ∙ run-down (enter ∷ []) typed_edits 2 (draw_proto 2 (initial stack)) w
                (down-filled (draw_proto 2 (initial stack)) h)
            ∙ rw pressed refl,
        subst (λ r. Forwarded (fwd_text r) w w') (entered-typed_rule stack h) forwarded,
      )
