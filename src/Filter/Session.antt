-- ===== src/Filter/Session.antt =====
-- A whole session: the user types a rule from the first field to the last, and inserts it.
use closed_bsd.Base.{
  ℕ, ◌≤◌, ◌<◌, ◌≡◌, refl, sym, ◌∙◌, ◌≢◌, true, List, [], ◌∷◌, arith, lt→ltb, length,
}
use mathlib.Core.Path.{subst}
use closed_bsd.Fault.{ok, ok-injective}
use closed_bsd.Filter.Commit.{press-Appended}
use closed_bsd.Filter.Down.{
  at_key, again, down, step_down, inputs, approach, redirect, leads_to_field, left_by,
}
use closed_bsd.Filter.Form.{Form, initial, default_rule, draw_action, draw_proto, buttons}
use closed_bsd.Filter.Keys.{entered, host_of, port_of}
use closed_bsd.Filter.Loop.{added, press, run, proto_filter}
use closed_bsd.Filter.Sound.{IsSound}
use closed_bsd.Keyboard.Typed.{LeavesForwards, IsHost, IsPort}
use closed_bsd.Keyboard.{Edit, EditKey, edit_down, edit_up, edit_other, Key, key_down, enter}
use closed_bsd.Rules.Command.Bounds.{assembled}
use closed_bsd.Rules.Command.{opening}
use closed_bsd.Rules.Ruleset.{Ruleset}
use closed_bsd.Rules.Script.Appends.{Appended}
use closed_bsd.Rules.Script.{success}
use closed_bsd.Text.{Text, codes}
use closed_bsd.World.{World, rules}

left_by-redirect : (p : ℕ) (k : EditKey) → 8 ≤ p → k ≢ edit_up → redirect p (left_by p k) ≡ again p
unfolding redirect
left_by-redirect p edit_down l h = ground arith
left_by-redirect p edit_up l h = absurd (h refl)
left_by-redirect p edit_other l h = ground arith

-- One round at a field that is left forwards.
down_forwards :
    (p q : ℕ) (e : Edit) (edits : List Edit) (f g h : Form)
    → leads_to_field p ≡ true
    → approach p f ≡ (q, g)
    → 8 ≤ q
    → LeavesForwards e
    → inputs q e g ≡ ok (h, left_by q e.key)
    → down (e ∷ edits) p f ≡ down edits q h
unfolding down
down_forwards p q e edits f g h y a l n r =
    rw (y, down) (rw a (rw r (rw (left_by-redirect q e.key l n) refl)))

type_src :
    (e : Edit) (f : Form)
    → length e.text < 128
    → inputs 8 e f ≡ ok (record f { src = e.text }, left_by 8 e.key)
unfolding inputs
type_src e f h = rw (lt→ltb (length e.text) 128 h) refl

type_src_port :
    (e : Edit) (f : Form)
    → length e.text < 5
    → inputs 9 e f ≡ ok (record f { src_port = e.text }, left_by 9 e.key)
unfolding inputs
type_src_port e f h = rw (lt→ltb (length e.text) 5 h) refl

type_dst :
    (e : Edit) (f : Form)
    → length e.text < 128
    → inputs 10 e f ≡ ok (record f { dst = e.text }, left_by 10 e.key)
unfolding inputs
type_dst e f h = rw (lt→ltb (length e.text) 128 h) refl

type_dst_port :
    (e : Edit) (f : Form)
    → length e.text < 5
    → inputs 11 e f ≡ ok (record f { dst_port = e.text }, left_by 11 e.key)
unfolding inputs
type_dst_port e f h = rw (lt→ltb (length e.text) 5 h) refl

-- The keys that go down past the two boxes.
abbrev pub downs : List Key → List Key
downs ks = key_down ∷ key_down ∷ key_down ∷ key_down ∷ key_down ∷ key_down ∷ ks

module _ (s sp d dp : Edit) where
  pub record AreTyped : Type 0 where
    pub src_host : IsHost s
    pub src_port : IsPort sp
    pub dst_host : IsHost d
    pub dst_port : IsPort dp

  abbrev pub typed_edits : List Edit
  typed_edits = s ∷ sp ∷ d ∷ dp ∷ []

  -- The form at the last row of the protocol box.
  abbrev below_boxes : Text → Form
  below_boxes junk = draw_proto 4 (draw_action 0 (initial junk))

  run-downs :
      (junk : Text) (ks : List Key) (w : World)
      → run (downs ks) typed_edits 1 (initial junk) w ≡ run ks typed_edits 7 (below_boxes junk) w
  unfolding run press down step_down leads_to_field initial
  run-downs junk ks w = refl

  abbrev filled : Form → Form
  filled f = buttons 1 (record (draw_proto 0 f) {
    src = s.text;
    src_port = sp.text;
    dst = d.text;
    dst_port = dp.text;
  })

  down-filled : (f : Form) → AreTyped → down typed_edits 7 f ≡ ok (at_key 12 (filled f) [])
  unfolding down approach step_down leads_to_field
  down-filled f h =
      let f₈ = record (draw_proto 0 f) { src = s.text } in
      let f₉ = record f₈ { src_port = sp.text } in
      let f₁₀ = record f₉ { dst = d.text } in
      let f₁₁ = record (buttons 0 f₁₀) { dst_port = dp.text } in
      down_forwards 7 8 s (sp ∷ d ∷ dp ∷ []) f (draw_proto 0 f) f₈ refl refl (omega arith)
        h.src_host.forwards (type_src s (draw_proto 0 f) (omega (arith, h.src_host.short)))
      ∙ down_forwards 8 9 sp (d ∷ dp ∷ []) f₈ f₈ f₉ refl refl (omega arith) h.src_port.forwards
          (type_src_port sp f₈ (omega (arith, h.src_port.short)))
      ∙ down_forwards 9 10 d (dp ∷ []) f₉ f₉ f₁₀ refl refl (omega arith) h.dst_host.forwards
          (type_dst d f₉ (omega (arith, h.dst_host.short)))
      ∙ down_forwards 10 11 dp [] f₁₀ (buttons 0 f₁₀) f₁₁ refl refl (omega arith)
          h.dst_port.forwards (type_dst_port dp (buttons 0 f₁₀) (omega (arith, h.dst_port.short)))

  filled-IsSound : (junk : Text) → AreTyped → IsSound junk (filled (below_boxes junk))
  unfolding initial
  filled-IsSound junk h = record {
    action_shown = refl;
    proto_shown = refl;
    iface_shown = refl;
    option_shown = refl;
    option_proto_shown = refl;
    offered = tt;
    option_bound = omega arith;
    iface_row_bound = omega arith;
    option_row_bound = omega arith;
    unwritten = refl;
    src_short = h.src_host.short;
    dst_short = h.dst_host.short;
    src_port_short = h.src_port.short;
    dst_port_short = h.dst_port.short;
  }

  abbrev pub typed_rule : Text → Ruleset
  typed_rule junk = record (default_rule junk) {
    src = host_of s.text;
    dst = host_of d.text;
    src_port = port_of sp.text;
    dst_port = port_of dp.text;
  }

  -- The user goes down past the boxes to the fields, types the two addresses (at most 33 bytes) and
  -- ports (at most 4 bytes), leaves each field by any key but KEY_UP, and presses return at OK,
  -- where the script can be opened: the form returns, and the whole command of the TCP rule that
  -- was typed, "any" standing for an empty address, is in the script and has been run.
  pub proto_filter-Appended :
      (junk : Text) (w : World)
      → AreTyped
      → w.opens rules ≡ true
      → (w' : World) × (proto_filter junk (downs (key_down ∷ enter ∷ [])) typed_edits w
          ≡ ok (added w' success))
        × Appended (assembled (codes "/sbin/ipfw -q add allow tcp ") (typed_rule junk)) w w'
  unfolding proto_filter run press initial entered opening
  proto_filter-Appended junk w h o =
      let f = filled (below_boxes junk) in
      let (cmd, w', pressed, opened, appended) =
        press-Appended [] f w (filled-IsSound junk h) (λ e. cc) refl o in
      (
        w',
        run-downs junk (key_down ∷ enter ∷ []) w
            ∙ rw (down-filled (below_boxes junk) h) (rw pressed refl),
        subst (λ c. Appended (assembled c (typed_rule junk)) w w') (sym (ok-injective opened))
            appended,
      )
