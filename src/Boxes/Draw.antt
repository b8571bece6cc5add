-- ===== src/Boxes/Draw.antt =====
-- The draw functions of closedbsd/config/misc.c, which choose the lines by the row that is lit.
use closed_bsd.Base.{ℕ, List, [], ◌==◌, if◌then◌else◌}
use closed_bsd.Boxes.ActionBox
use closed_bsd.Boxes.ForwardBox
use closed_bsd.Boxes.Icmp
use closed_bsd.Boxes.Iface
use closed_bsd.Boxes.Ip
use closed_bsd.Boxes.ProtocolBox
use closed_bsd.Boxes.Row.{Row}
use closed_bsd.Boxes.Tcp
use closed_bsd.Boxes.Udp
use closed_bsd.Rules.Ruleset.{Action, Proto, ip, tcp, udp, icmp, Flow}

-- switch (selected) with the cases 0 to 4; any other row prints nothing.
abbrev pub by_row : ℕ → List Row → List Row → List Row → List Row → List Row → List Row
by_row selected none_lit first second third fourth =
    if selected == 0
    then none_lit
    else if selected == 1
    then first
    else if selected == 2
    then second
    else if selected == 3
    then third
    else if selected == 4
    then fourth
    else []

-- `draw_options`
unfoldable pub options_rows : Proto → ℕ → ℕ → List Row
options_rows udp selected option =
    by_row selected Udp.none_lit Udp.first_lit Udp.second_lit Udp.third_lit Udp.fourth_lit
options_rows icmp selected option =
    by_row selected (Icmp.none_lit option) (Icmp.first_lit option) (Icmp.second_lit option)
      (Icmp.third_lit option) (Icmp.fourth_lit option)
options_rows ip selected option =
    by_row selected (Ip.none_lit option) (Ip.first_lit option) (Ip.second_lit option)
      (Ip.third_lit option) (Ip.fourth_lit option)
options_rows tcp selected option =
    by_row selected (Tcp.none_lit option) (Tcp.first_lit option) (Tcp.second_lit option)
      (Tcp.third_lit option) (Tcp.fourth_lit option)

-- `draw_iface`
unfoldable pub iface_rows : ℕ → Flow → List Row
iface_rows selected ifs =
    by_row selected (Iface.none_lit ifs) (Iface.first_lit ifs) (Iface.second_lit ifs)
      (Iface.third_lit ifs) []

-- `draw_action_box`, where every other row is the default.
unfoldable pub action_rows : ℕ → Action → List Row
action_rows selected action =
    if selected == 1
    then ActionBox.first_lit action
    else if selected == 2
    then ActionBox.second_lit action
    else if selected == 3
    then ActionBox.third_lit action
    else ActionBox.none_lit action

-- `draw_protocol_box`
unfoldable pub protocol_rows : ℕ → Proto → List Row
protocol_rows selected proto =
    if selected == 1
    then ProtocolBox.first_lit proto
    else if selected == 2
    then ProtocolBox.second_lit proto
    else if selected == 3
    then ProtocolBox.third_lit proto
    else if selected == 4
    then ProtocolBox.fourth_lit proto
    else ProtocolBox.none_lit proto

-- `draw_protocol_forward_box`
unfoldable pub forward_rows : ℕ → Proto → List Row
forward_rows selected proto =
    if selected == 1
    then ForwardBox.first_lit proto
    else if selected == 2
    then ForwardBox.second_lit proto
    else ForwardBox.none_lit proto
