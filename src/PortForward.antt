-- ===== src/PortForward.antt =====
-- The form "Insert a TCP/UDP port forward" (closedbsd/config/forward.c, and `forw_input` of
-- closedbsd/config/misc.c).
pub mod Down
pub mod Loop
pub mod Sound
pub mod Commit
pub mod Session
mod Examples
-- The variables of `proto_forward`, and what the boxes show.
use closed_bsd.Base.{ℕ, []}
use closed_bsd.Rules.Ruleset.{fwd, Proto, tcp, Ruleset, zeroed, any, Flow}
use closed_bsd.Text.{Text}

-- The texts are the line buffers. Of the protocol box the row that is highlighted and the protocol
-- that is marked are kept, of the buttons the argument of the last call.
pub record Form : Type 0 where
  pub rule : Ruleset
  pub src : Text
  pub dst : Text
  pub forw : Text
  pub src_port : Text
  pub dst_port : Text
  pub forw_port : Text
  pub proto_row : ℕ
  pub proto_shown : Proto
  pub button : ℕ

-- draw_protocol_forward_box(w, 2, 13, row, r)
abbrev pub draw_proto : ℕ → Form → Form
draw_proto row f = record f { proto_row = row; proto_shown = f.rule.proto }

-- buttons(w, selected)
abbrev pub buttons : ℕ → Form → Form
buttons selected f = record f { button = selected }

-- What the stack holds in the fields of `struct ruleset r` that are never set: `ifs`, `option`,
-- and the two that are set only when the rule is inserted.
pub record Stack : Type 0 where
  pub ifs : Flow
  pub option : ℕ
  pub other_a : Text
  pub other_b : Text

abbrev pub default_rule : Stack → Ruleset
default_rule stack = record zeroed {
  action = fwd;
  proto = tcp;
  ifs = stack.ifs;
  option = stack.option;
  other_a = stack.other_a;
  other_b = stack.other_b;
}

-- The form as it is first drawn, with the cursor at 1.
unfoldable pub initial : Stack → Form
initial stack = record {
  rule = default_rule stack;
  src = [];
  dst = [];
  forw = [];
  src_port = [];
  dst_port = [];
  forw_port = [];
  proto_row = 1;
  proto_shown = tcp;
  button = 0;
}
