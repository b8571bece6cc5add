-- ===== src/PortForward/Examples.antt =====
-- Concrete runs of the form for forwards (closedbsd/config/forward.c).
use closed_bsd.Base.{◌≡◌, refl, true, false, none, [], ◌∷◌, arith, inl}
use closed_bsd.Fault.{ok}
use closed_bsd.Keyboard.Typed.{IsHost, IsPort}
use closed_bsd.Keyboard.{Edit, edit_down, edit_other, key_down, space_bar, enter}
use closed_bsd.PortForward.Commit.{OutcomeIsSound, forward_run-IsSound}
use closed_bsd.PortForward.Down.{at_key, down, step_down}
use closed_bsd.PortForward.Loop.{added, going, press, run, proto_forward, space}
use closed_bsd.PortForward.Session.{proto_forward-Forwarded, AreTyped, typed_edits, typed_rule}
use closed_bsd.PortForward.Sound.{initial-IsSound}
use closed_bsd.PortForward.{Form, Stack, initial, draw_proto}
use closed_bsd.Rules.Command.Forward.{fwd_text}
use closed_bsd.Rules.Ruleset.{any, udp}
use closed_bsd.Rules.Script.Forwards.{Forwarded}
use closed_bsd.Text.{codes}
use closed_bsd.World.{World}

abbrev world : World
world = record { content = λ _. none; opens = λ _. true; ran = [] }

abbrev closed : World
closed = record world { opens = λ _. false }

abbrev stack : Stack
stack = record { ifs = any; option = 7; other_a = codes "junk"; other_b = [] }

abbrev host : Edit
host = record { text = codes "10.0.0.1"; key = edit_down }

abbrev port : Edit
port = record { text = codes "80"; key = edit_other }

host-IsHost : IsHost host
host-IsHost = record { forwards = λ e. cc; short = omega arith }

port-IsPort : IsPort port
port-IsPort = record { forwards = λ e. cc; short = omega arith }

typed : AreTyped host port host port host port
typed = record {
  src_host = host-IsHost;
  src_port = port-IsPort;
  dst_host = host-IsHost;
  dst_port = port-IsPort;
  forw_host = host-IsHost;
  forw_port = port-IsPort;
}

proto_forward-Forwarded_example :
    (w' : World) × (proto_forward stack
        (key_down ∷ key_down ∷ enter ∷ [])
        (typed_edits host port host port host port)
        world
      ≡ ok (added w'))
    × Forwarded (fwd_text (typed_rule host port host port host port stack)) world w'
proto_forward-Forwarded_example =
    proto_forward-Forwarded host port host port host port stack world typed refl

-- The form after the cursor has gone down to UDP and the space bar has chosen it.
abbrev chosen : Form
chosen =
    draw_proto 2 (record (initial stack) { rule = record ((initial stack).rule) { proto = udp } })

to_chosen :
    run (key_down ∷ space_bar ∷ []) (host ∷ []) 1 (initial stack) world
    ≡ ok (going (at_key 2 chosen (host ∷ [])) world)
unfolding run press down step_down space initial
to_chosen = refl

forward_run-IsSound_example : OutcomeIsSound (going (at_key 2 chosen (host ∷ [])) world)
forward_run-IsSound_example =
    forward_run-IsSound (key_down ∷ space_bar ∷ []) (host ∷ []) 1 (initial stack) world (inl refl)
      (initial-IsSound stack) (omega arith, tt) to_chosen
