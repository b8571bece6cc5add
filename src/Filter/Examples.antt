-- ===== src/Filter/Examples.antt =====
-- Concrete runs of the form (closedbsd/config/filter.c).
use closed_bsd.Base.{◌≡◌, refl, inl, true, false, [], ◌∷◌, none, arith, All}
use closed_bsd.Filter.Session.{proto_filter-Appended, AreTyped, downs, typed_edits, typed_rule}
use closed_bsd.Keyboard.{Edit, edit_down, edit_other, key_down, space_bar, enter}
use closed_bsd.Fault.{ok}
use closed_bsd.Filter.Commit.{run-IsSound, press-Refused}
use closed_bsd.Filter.Down.{at_key, down, step_down, leads_to_field}
use closed_bsd.Filter.Form.{Form, initial, draw_action}
use closed_bsd.Filter.Keys.{space}
use closed_bsd.Filter.Loop.{press, run, proto_filter, added, going}
use closed_bsd.Filter.Sound.{IsSound, initial-IsSound, IsLine}
use closed_bsd.Rules.Command.Bounds.{assembled}
use closed_bsd.Rules.Ruleset.{deny}
use closed_bsd.Rules.Script.Appends.{Appended, Refused}
use closed_bsd.Rules.Script.{success, failure}
use closed_bsd.Text.{Text, codes}
use closed_bsd.World.{World}

abbrev world : World
world = record { content = λ _. none; opens = λ _. true; ran = [] }

abbrev closed : World
closed = record world { opens = λ _. false }

abbrev address : Edit
address = record { text = codes "10.0.0.1"; key = edit_down }

-- The form after the cursor has gone to DENY and the space bar has chosen it.
abbrev denied : Form
denied = draw_action 2 (record (initial (codes "junk")) {
  rule = record ((initial (codes "junk")).rule) { action = deny };
})

to_denied :
    run (key_down ∷ space_bar ∷ []) (address ∷ []) 1 (initial (codes "junk")) world
    ≡ ok (going (at_key 2 denied (address ∷ [])))
unfolding run press down step_down leads_to_field space initial
to_denied = refl

run-IsSound_example : IsSound (codes "junk") denied × All IsLine (address ∷ [])
run-IsSound_example =
    run-IsSound (key_down ∷ space_bar ∷ []) (address ∷ []) 1 (initial (codes "junk")) world
      (initial-IsSound (codes "junk")) (omega arith, tt) to_denied

press-Refused_example :
    (w' : World) × (press enter [] 12 (initial []) closed ≡ ok (added w' failure))
    × Refused closed w'
press-Refused_example = press-Refused [] (initial []) closed (inl refl)

abbrev port : Edit
port = record { text = codes "80"; key = edit_other }

-- An empty address stands for any.
abbrev empty : Edit
empty = record { text = []; key = edit_down }

typed : AreTyped empty port address empty
typed = record {
  src_host = record { forwards = λ e. cc; short = omega arith };
  src_port = record { forwards = λ e. cc; short = omega arith };
  dst_host = record { forwards = λ e. cc; short = omega arith };
  dst_port = record { forwards = λ e. cc; short = omega arith };
}

proto_filter-Appended_example :
    (w' : World) × (proto_filter []
        (downs (key_down ∷ enter ∷ []))
        (typed_edits empty port address empty)
        world
      ≡ ok (added w' success))
    × Appended
        (assembled (codes "/sbin/ipfw -q add allow tcp ") (typed_rule empty port address empty []))
        world
        w'
proto_filter-Appended_example = proto_filter-Appended empty port address empty [] world typed refl
