-- ===== src/PortForward/Down.antt =====
-- KEY_DOWN of the form for forwards, from the label `down` on.
use closed_bsd.Base.{ℕ, ◌+◌, ◌-◌, Bool, ◌&&◌, List, [], ◌∷◌, ltb, leb, ◌==◌, if◌then◌else◌}
use closed_bsd.Fault.{Result, ok, ◌>>=◌}
use closed_bsd.Keyboard.{Edit, EditKey, edit_down, edit_up, edit_other, stored}
use closed_bsd.PortForward.{Form, draw_proto, buttons}

-- switch (key) of `forw_input`; any other key breaks, and the function ends in `selected`.
abbrev pub left_by : ℕ → EditKey → ℕ
left_by selected edit_down = selected + 1
left_by selected edit_up = selected - 1
left_by selected edit_other = selected

-- `forw_input`: the field that is edited, and the result.
unfoldable pub forw_input : ℕ → Edit → Form → Result (Form × ℕ)
forw_input selected e f =
    let ret = left_by selected e.key in
    if selected == 3
    then (stored 128 e.text (record f { src = e.text }) >>= λ g. ok (g, ret))
    else if selected == 4
    then (stored 5 e.text (record f { src_port = e.text }) >>= λ g. ok (g, ret))
    else if selected == 5
    then (stored 128 e.text (record f { dst = e.text }) >>= λ g. ok (g, ret))
    else if selected == 6
    then (stored 5 e.text (record f { dst_port = e.text }) >>= λ g. ok (g, ret))
    else if selected == 7
    then (stored 128 e.text (record f { forw = e.text }) >>= λ g. ok (g, ret))
    else if selected == 8
    then (stored 5 e.text (record f { forw_port = e.text }) >>= λ g. ok (g, ret))
    else ok (f, selected)

-- The cases 2 to 7, which go on to a text field.
abbrev pub leads_to_field : ℕ → Bool
leads_to_field p = leb 2 p && leb p 7

-- What these cases draw before the call of `forw_input`.
abbrev pub approach : ℕ → Form → Form
approach p f = if p == 2 then draw_proto 0 f else if p == 7 then buttons 0 f else f

-- if (ret < p) p = p - 2 (with p as it was before p++, p - 1); else p stays; goto down
abbrev pub redirect : ℕ → ℕ → ℕ
redirect p ret = if ltb ret p then p - 2 else p

-- The cases 1, 8 and 9, which end in `break`, and the cursors that have no case.
unfoldable pub step_down : ℕ → Form → ℕ × Form
step_down p f =
    if p == 1
    then (2, draw_proto 2 f)
    else if p == 8
    then (9, buttons 1 f)
    else if p == 9
    then (10, buttons 2 f)
    else (p, f)

-- Back at wgetch with the edits that are left, or in a field for which the user has not yet typed a
-- line.
pub data Stop : Type 0 where
  at_key : ℕ → Form → List Edit → Stop
  in_field : ℕ → Form → Stop

abbrev pub rest_at : ℕ × Form → List Edit → Stop
rest_at (p, f) edits = at_key p f edits

-- case KEY_DOWN. Each round at a field takes one edit.
unfoldable pub down : List Edit → ℕ → Form → Result Stop
unfolding forw_input step_down
down [] p f =
    ok (if leads_to_field p then in_field (p + 1) (approach p f) else rest_at (step_down p f) [])
down (e ∷ edits) p f =
    let go = forw_input (p + 1) e (approach p f) >>= λ r. down edits (redirect (p + 1) r.1) r.0 in
    if leads_to_field p then go else ok (rest_at (step_down p f) (e ∷ edits))
