-- ===== src/PortForward/Loop.antt =====
-- The other keys, and the loop of `proto_forward`.
use closed_bsd.Base.{ℕ, List, [], ◌∷◌, ◌==◌, if◌then◌else◌}
use closed_bsd.Fault.{Result, ok, ◌>>=◌}
use closed_bsd.Keyboard.{
  Edit, Key, key_down, key_left, key_right, key_up, space_bar, enter, tabulator, other,
}
use closed_bsd.PortForward.Down.{Stop, at_key, down}
use closed_bsd.PortForward.{Form, Stack, initial, draw_proto, buttons}
use closed_bsd.Rules.Ruleset.{Proto, tcp, udp, Ruleset}
use closed_bsd.Rules.Script.{Ret, success, failure, insert_rule}
use closed_bsd.Text.{snprintf}
use closed_bsd.World.{World}

-- case KEY_UP, where it ends in `break`.
unfoldable pub step_up : ℕ → Form → ℕ × Form
step_up p f = if p == 1 then (1, draw_proto 1 f) else if p == 2 then (1, draw_proto 1 f) else (p, f)

-- case KEY_UP: from the buttons it jumps to the label `down`.
unfoldable pub up : List Edit → ℕ → Form → Result Stop
up edits p f =
    if p == 9
    then down edits 7 (buttons 0 f)
    else if p == 10
    then down edits 8 (buttons 1 f)
    else ok (let (q, g) = step_up p f in at_key q g edits)

-- case KEY_RIGHT
unfoldable pub right : ℕ → Form → ℕ × Form
right p f = if p == 9 then (10, buttons 2 f) else (p, f)

-- case KEY_LEFT
unfoldable pub left : ℕ → Form → ℕ × Form
left p f = if p == 10 then (9, buttons 1 f) else (p, f)

abbrev set_proto : Proto → Form → Form
set_proto a f = record f { rule = record (f.rule) { proto = a } }

-- case 32, the space bar
unfoldable pub space : ℕ → Form → Form
space p f =
    if p == 1
    then draw_proto 1 (set_proto tcp f)
    else if p == 2
    then draw_proto 2 (set_proto udp f)
    else f

-- case 10 at the button OK: the rule that is inserted, and kept.
unfoldable pub entered : Form → Ruleset
entered f = record (f.rule) {
  src = snprintf 128 f.src;
  src_port = snprintf 5 f.src_port;
  dst = snprintf 128 f.dst;
  dst_port = snprintf 5 f.dst_port;
  other_a = snprintf 256 f.forw;
  other_b = snprintf 256 f.forw_port;
}

-- Where the program is after one key: still in the form, or returned, after "Rule has been added"
-- or not.
pub data Outcome : Type 0 where
  going : Stop → World → Outcome
  added : World → Outcome
  cancelled : World → Outcome

-- A rule that is refused leaves the user in the form.
abbrev pub reported : List Edit → Form → World × Ret → Outcome
reported edits f (w, success) = added w
reported edits f (w, failure) = going (at_key 9 f edits) w

unfoldable pub on_enter : List Edit → ℕ → Form → World → Result Outcome
on_enter edits p f w =
    if p == 9
    then (insert_rule (entered f) w >>= λ r. ok (reported edits (record f { rule = entered f }) r))
    else if p == 10
    then ok (cancelled w)
    else ok (going (at_key p f edits) w)

abbrev pub moved : List Edit → World → ℕ × Form → Result Outcome
moved edits w (p, f) = ok (going (at_key p f edits) w)

-- One round of the loop.
unfoldable pub press : Key → List Edit → ℕ → Form → World → Result Outcome
press key_down edits p f w = down edits p f >>= λ s. ok (going s w)
press key_left edits p f w = moved edits w (left p f)
press key_right edits p f w = moved edits w (right p f)
press key_up edits p f w = up edits p f >>= λ s. ok (going s w)
press space_bar edits p f w = moved edits w (p, space p f)
press enter edits p f w = on_enter edits p f w
press tabulator edits p f w = moved edits w (p, f)
press other edits p f w = moved edits w (p, f)

-- The next round starts where the last one stopped, unless it returned or waits in a field.
abbrev pub resume : Outcome → (List Edit → ℕ → Form → World → Result Outcome) → Result Outcome
resume (going (at_key p f edits) w) rounds = rounds edits p f w
resume o rounds = ok o

unfoldable pub run : List Key → List Edit → ℕ → Form → World → Result Outcome
run [] edits p f w = ok (going (at_key p f edits) w)
run (k ∷ ks) edits p f w = press k edits p f w >>= λ o. resume o (run ks)

-- The whole form, on the keys and the edited lines that the user gives. It stops where the keys run
-- out.
unfoldable pub proto_forward : Stack → List Key → List Edit → World → Result Outcome
proto_forward stack ks edits w = run ks edits 1 (initial stack) w
