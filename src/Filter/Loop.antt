-- ===== src/Filter/Loop.antt =====
-- The loop of `proto_filter` over the keys that wgetch returns.
use closed_bsd.Base.{ℕ, List, [], ◌∷◌, ◌==◌, if◌then◌else◌}
use closed_bsd.Keyboard.{
  Edit, Key, key_down, key_left, key_right, key_up, space_bar, enter, tabulator, other,
}
use closed_bsd.Fault.{Result, ok, ◌>>=◌}
use closed_bsd.Filter.Down.{Stop, at_key, down}
use closed_bsd.Filter.Form.{Form, initial}
use closed_bsd.Filter.Keys.{left, right, up, tab, space, entered}
use closed_bsd.Rules.Script.{Ret, insert_rule}
use closed_bsd.Text.{Text}
use closed_bsd.World.{World}

-- Where the program is after one key: still in the form, or returned. `added` carries the result
-- of `__insert_rule`, which the form does not read before it says that the rule has been added.
pub data Outcome : Type 0 where
  going : Stop → Outcome
  added : World → Ret → Outcome
  cancelled : Outcome

abbrev pub moved : List Edit → ℕ × Form → Result Outcome
moved edits (p, f) = ok (going (at_key p f edits))

unfoldable pub on_enter : List Edit → ℕ → Form → World → Result Outcome
on_enter edits p f w =
    if p == 12
    then (insert_rule (entered f) w >>= λ r. ok (added r.0 r.1))
    else if p == 13
    then ok cancelled
    else ok (going (at_key p f edits))

-- One round of the loop.
unfoldable pub press : Key → List Edit → ℕ → Form → World → Result Outcome
unfolding on_enter
press key_down edits p f w = down edits p f >>= λ s. ok (going s)
press key_left edits p f w = moved edits (left p f)
press key_right edits p f w = moved edits (right p f)
press key_up edits p f w = up edits p f >>= λ s. ok (going s)
press space_bar edits p f w = ok (going (at_key p (space p f) edits))
press enter edits p f w = on_enter edits p f w
press tabulator edits p f w = moved edits (tab p f)
press other edits p f w = ok (going (at_key p f edits))

-- The next round starts where the last one stopped, unless it returned or waits in a field.
abbrev pub resume :
    Outcome → (List Edit → ℕ → Form → World → Result Outcome) → World → Result Outcome
resume (going (at_key p f edits)) rounds w = rounds edits p f w
resume o rounds w = ok o

-- The whole form, on the keys and the edited lines that the user gives. It stops where the keys
-- run out.
unfoldable pub run : List Key → List Edit → ℕ → Form → World → Result Outcome
run [] edits p f w = ok (going (at_key p f edits))
run (k ∷ ks) edits p f w = press k edits p f w >>= λ o. resume o (run ks) w

unfoldable pub proto_filter : Text → List Key → List Edit → World → Result Outcome
unfolding run initial
proto_filter junk ks edits w = run ks edits 1 (initial junk) w
