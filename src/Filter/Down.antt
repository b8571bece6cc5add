-- ===== src/Filter/Down.antt =====
-- KEY_DOWN, and the label `down` to which other keys jump: the cursor moves to the next widget.
-- At a text field the user edits a line, and the loop goes on from there.
use closed_bsd.Base.{ℕ, ◌+◌, ◌-◌, Bool, ◌||◌, List, [], ◌∷◌, ltb, ◌==◌, if◌then◌else◌}
use closed_bsd.Keyboard.{Edit, EditKey, edit_down, edit_up, edit_other, stored}
use closed_bsd.Fault.{Result, ok, ◌>>=◌}
use closed_bsd.Filter.Form.{Form, draw_action, draw_proto, draw_iface, draw_options, buttons}

-- switch (key) of `inputs`; any other key breaks, and the function ends in `selected + 1`.
abbrev pub left_by : ℕ → EditKey → ℕ
left_by selected edit_down = selected + 1
left_by selected edit_up = selected - 1
left_by selected edit_other = selected + 1

-- inputs: the field that is edited, and the result.
unfoldable pub inputs : ℕ → Edit → Form → Result (Form × ℕ)
inputs selected e f =
    let key = left_by selected e.key in
    if selected == 8
    then (stored 128 e.text (record f { src = e.text }) >>= λ f'. ok (f', key))
    else if selected == 9
    then (stored 5 e.text (record f { src_port = e.text }) >>= λ f'. ok (f', key))
    else if selected == 10
    then (stored 128 e.text (record f { dst = e.text }) >>= λ f'. ok (f', key))
    else if selected == 11
    then (stored 5 e.text (record f { dst_port = e.text }) >>= λ f'. ok (f', key))
    else ok (f, selected + 1)

-- The cases that end in `break` with no field to edit: the new cursor and the new form.
unfoldable pub step_down : ℕ → Form → ℕ × Form
step_down p f =
    if p == 1
    then (2, draw_action 2 f)
    else if p == 2
    then (3, draw_action 3 f)
    else if p == 3
    then (4, draw_proto 1 (draw_action 0 f))
    else if p == 4
    then (5, draw_proto 2 f)
    else if p == 5
    then (6, draw_proto 3 f)
    else if p == 6
    then (7, draw_proto 4 f)
    else if p == 11
    then (12, buttons 1 f)
    else if p == 12
    then (13, buttons 2 f)
    else if p == 21
    then (22, draw_iface 2 f)
    else if p == 22
    then (23, draw_iface 3 f)
    else if p == 23
    then (24, draw_options 1 (draw_iface 0 f))
    else if p == 24
    then (25, draw_options 2 f)
    else if p == 25
    then (26, draw_options 3 f)
    else if p == 26
    then (27, draw_options 4 f)
    else (p, f)

-- The cases 7 to 10, which go on to a text field, and 27, which goes on as 7.
unfoldable pub leads_to_field : ℕ → Bool
leads_to_field p = p == 7 || p == 8 || p == 9 || p == 10 || p == 27

-- What these cases do before the call of `inputs`.
unfoldable pub approach : ℕ → Form → ℕ × Form
approach p f =
    if p == 27
    then (8, draw_proto 0 (draw_options 0 f))
    else if p == 7
    then (8, draw_proto 0 f)
    else if p == 8
    then (9, f)
    else if p == 9
    then (10, f)
    else (11, buttons 0 f)

-- Where the code goes with the result of `inputs`: `goto down` with another cursor, or `break`.
pub data Next : Type 0 where
  again : ℕ → Next
  stay : Next

unfoldable pub redirect : ℕ → ℕ → Next
redirect p ch =
    if ltb ch p then again (p - 2) else if ltb (if p == 9 then 8 else p) ch then again p else stay

-- Where KEY_DOWN leaves the program: back at wgetch with the edits that are left, or in a field
-- for which the user has not yet typed a line.
pub data Stop : Type 0 where
  at_key : ℕ → Form → List Edit → Stop
  in_field : ℕ → Form → Stop

abbrev pub rest_at : ℕ × Form → List Edit → Stop
rest_at (p, f) edits = at_key p f edits

abbrev pub blocked_at : ℕ × Form → Stop
blocked_at (p, f) = in_field p f

abbrev pub edited : ℕ → Next → Form → List Edit → (ℕ → Form → Result Stop) → Result Stop
edited p (again q) f edits down = down q f
edited p stay f edits down = ok (at_key p f edits)

-- case KEY_DOWN, from the label on. Each round at a field takes one edit.
unfoldable pub down : List Edit → ℕ → Form → Result Stop
unfolding inputs step_down leads_to_field approach redirect
down [] p f =
    ok (if leads_to_field p then blocked_at (approach p f) else rest_at (step_down p f) [])
down (e ∷ edits) p f =
    let go = inputs (approach p f).0 e (approach p f).1 >>= λ r.
    edited (approach p f).0 (redirect (approach p f).0 r.1) r.0 edits (down edits) in
    if leads_to_field p then go else ok (rest_at (step_down p f) (e ∷ edits))
