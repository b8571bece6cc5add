-- ===== src/Boxes/Marks.antt =====
-- The boxes against one description of a box: a list of labels, of which one is marked and at most
-- one is lit.
use closed_bsd.Base.{
  ℕ, ◌+◌, ◌≤◌, ◌≡◌, ◌⊎◌, Bool, true, false, List, [], ◌∷◌, ◌++◌, arith, ◌==◌, if◌then◌else◌,
}
use closed_bsd.Boxes.ActionBox
use closed_bsd.Boxes.Draw.{action_rows, protocol_rows, iface_rows, forward_rows}
use closed_bsd.Boxes.ForwardBox
use closed_bsd.Boxes.Iface
use closed_bsd.Boxes.ProtocolBox
use closed_bsd.Boxes.Row.{Row}
use closed_bsd.Filter.Sound.{IsOffered}
use closed_bsd.Rules.Ruleset.{
  Action, allow, deny, divert, fwd, reset, Proto, ip, tcp, udp, icmp, Flow, any, incoming, outgoing,
}
use closed_bsd.Text.{Text, codes}

abbrev pub mark : Bool → Text
mark true = codes "(*)"
mark false = codes "( )"

abbrev pub row : Bool → Text → Row
row true t = record { is_lit = true; text = codes "[" ++ (t ++ codes "]") }
row false t = record { is_lit = false; text = codes " " ++ (t ++ codes " ") }

-- The rows from number `i` on; `lit` and `marked` are numbers of rows, from 1.
abbrev pub box : ℕ → List Text → ℕ → ℕ → List Row
box i [] lit marked = []
box i (label ∷ labels) lit marked =
    row (i == lit) (mark (i == marked) ++ label) ∷ box (i + 1) labels lit marked

abbrev pub action_labels : List Text
action_labels =
    codes " Allow   Allow packets matching this rule  "
    ∷ codes " Deny    Deny packets matching this rule   "
    ∷ codes " Reset   Discard packet and send RST (TCP) "
    ∷ []

abbrev pub action_number : Action → ℕ
action_number allow = 1
action_number deny = 2
action_number reset = 3
action_number _ = 0

abbrev pub protocol_labels : List Text
protocol_labels =
    codes " TCP     Transmission Control Protocol     "
    ∷ codes " IP      Internet Protocol                 "
    ∷ codes " UDP     User Datagram Protocol            "
    ∷ codes " ICMP    Internet Control Message Protocol "
    ∷ []

abbrev pub protocol_number : Proto → ℕ
protocol_number tcp = 1
protocol_number ip = 2
protocol_number udp = 3
protocol_number icmp = 4

-- The box marks the row of the rule's action, and lights the selected row.
pub action_rows-box :
    (selected : ℕ) (a : Action)
    → IsOffered a
    → action_rows selected a ≡ box 1 action_labels selected (action_number a)
unfolding action_rows ActionBox.none_lit ActionBox.first_lit ActionBox.second_lit
    ActionBox.third_lit
action_rows-box selected allow h = ground arith
action_rows-box selected deny h = ground arith
action_rows-box selected reset h = ground arith
action_rows-box selected divert h = absurd h
action_rows-box selected fwd h = absurd h

pub protocol_rows-box :
    (selected : ℕ) (p : Proto)
    → protocol_rows selected p ≡ box 1 protocol_labels selected (protocol_number p)
unfolding protocol_rows ProtocolBox.none_lit ProtocolBox.first_lit ProtocolBox.second_lit
    ProtocolBox.third_lit ProtocolBox.fourth_lit
protocol_rows-box selected tcp = ground arith
protocol_rows-box selected ip = ground arith
protocol_rows-box selected udp = ground arith
protocol_rows-box selected icmp = ground arith

abbrev pub flow_labels : Text → List Text
flow_labels pad =
    (codes "   Incoming    " ++ pad)
    ∷ (codes "   Outgoing    " ++ pad)
    ∷ (codes "   Any         " ++ pad)
    ∷ []

-- The box is two bytes narrower while no row of it is lit.
abbrev pub flow_pad : ℕ → Text
flow_pad selected = if selected == 0 then [] else codes "  "

abbrev pub flow_number : Flow → ℕ
flow_number incoming = 1
flow_number outgoing = 2
flow_number any = 3

pub iface_rows-box :
    (selected : ℕ) (flow : Flow)
    → selected ≤ 3
    → iface_rows selected flow ≡ box 1 (flow_labels (flow_pad selected)) selected (flow_number flow)
unfolding iface_rows Iface.none_lit Iface.first_lit Iface.second_lit Iface.third_lit
iface_rows-box selected any h = ground arith
iface_rows-box selected incoming h = ground arith
iface_rows-box selected outgoing h = ground arith

abbrev pub forward_labels : List Text
forward_labels =
    codes " TCP     Transmission Control Protocol     "
    ∷ codes " UDP     User Datagram Protocol            "
    ∷ []

abbrev pub forward_number : Proto → ℕ
forward_number tcp = 1
forward_number udp = 2
forward_number _ = 0

pub forward_rows-box :
    (selected : ℕ) (p : Proto)
    → (p ≡ tcp) ⊎ (p ≡ udp)
    → forward_rows selected p ≡ box 1 forward_labels selected (forward_number p)
unfolding forward_rows ForwardBox.none_lit ForwardBox.first_lit ForwardBox.second_lit
forward_rows-box selected tcp h = ground arith
forward_rows-box selected udp h = ground arith
forward_rows-box selected ip h = ground arith
forward_rows-box selected icmp h = ground arith
