-- ===== src/Boxes/Screen.antt =====
-- What is on the screen against the rule that the form holds.
use closed_bsd.Base.{◌≡◌, ap, ◌∙◌, List}
use closed_bsd.Boxes.Draw.{action_rows, protocol_rows, iface_rows, options_rows}
use closed_bsd.Boxes.Marks.{
  box, action_labels, action_number, protocol_labels, protocol_number, flow_labels, flow_pad,
  flow_number, action_rows-box, protocol_rows-box, iface_rows-box,
}
use closed_bsd.Boxes.Options.{option_box, options_rows-box}
use closed_bsd.Boxes.Row.{Row}
use closed_bsd.Filter.Form.{Form, Screen}
use closed_bsd.Filter.Sound.{IsSound}
use closed_bsd.Text.{Text}

-- The four boxes, as the last calls of the draw functions printed them.
abbrev pub Boxes : Type 0
Boxes = List Row × List Row × List Row × List Row

abbrev pub printed_boxes : Screen → Boxes
printed_boxes s = (
  action_rows s.action_row s.action_shown,
  protocol_rows s.proto_row s.proto_shown,
  iface_rows s.iface_row s.iface_shown,
  options_rows s.option_proto_shown s.option_row s.option_shown,
)

-- Of each box the row of the rule's value is marked, and the row that the form has selected is lit.
abbrev pub rule_boxes : Form → Boxes
rule_boxes f =
    let r = f.rule in
    let s = f.screen in
    (
      box 1 action_labels s.action_row (action_number r.action),
      box 1 protocol_labels s.proto_row (protocol_number r.proto),
      box 1 (flow_labels (flow_pad s.iface_row)) s.iface_row (flow_number r.ifs),
      option_box r.proto s.option_row r.option,
    )

-- On the screen of a sound form, the boxes mark the action, the protocol, the interface and the
-- option of the rule that the form holds, and no other row.
pub printed_boxes-rule_boxes :
    {junk : Text} (f : Form) → IsSound junk f → printed_boxes f.screen ≡ rule_boxes f
printed_boxes-rule_boxes f h =
    let r = f.rule in
    let s = f.screen in
    let a =
      ap (action_rows s.action_row) h.action_shown
      ∙ action_rows-box s.action_row r.action h.offered in
    let p = ap (protocol_rows s.proto_row) h.proto_shown ∙ protocol_rows-box s.proto_row r.proto in
    let i =
      ap (iface_rows s.iface_row) h.iface_shown
      ∙ iface_rows-box s.iface_row r.ifs h.iface_row_bound in
    let o =
      ap (λ t. options_rows t s.option_row s.option_shown) h.option_proto_shown
      ∙ ap (options_rows r.proto s.option_row) h.option_shown
      ∙ options_rows-box r.proto s.option_row h.option_row_bound r.option h.option_bound in
    cc
