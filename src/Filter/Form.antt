-- ===== src/Filter/Form.antt =====
-- The variables of `proto_filter`, and what the draw functions put on the screen.
use closed_bsd.Base.{ℕ, []}
use closed_bsd.Rules.Ruleset.{Action, allow, Proto, tcp, Flow, any, no_option, Ruleset, zeroed}
use closed_bsd.Text.{Text}

-- Of each box: which of its rows is highlighted (0: none), and the values that its marks showed
-- when it was last drawn. `button` is the argument of the last call of `buttons`.
pub record Screen : Type 0 where
  pub action_row : ℕ
  pub action_shown : Action
  pub proto_row : ℕ
  pub proto_shown : Proto
  pub iface_row : ℕ
  pub iface_shown : Flow
  pub option_row : ℕ
  pub option_proto_shown : Proto
  pub option_shown : ℕ
  pub button : ℕ

-- The texts are the line buffers `src`, `dst`, `src_port` and `dst_port`.
pub record Form : Type 0 where
  pub rule : Ruleset
  pub src : Text
  pub dst : Text
  pub src_port : Text
  pub dst_port : Text
  pub screen : Screen

-- draw_action_box(w, 2, 1, row, rule)
abbrev pub draw_action : ℕ → Form → Form
draw_action row f = record f {
  screen = record (f.screen) { action_row = row; action_shown = f.rule.action };
}

-- draw_protocol_box(w, 7, 1, row, rule)
abbrev pub draw_proto : ℕ → Form → Form
draw_proto row f = record f {
  screen = record (f.screen) { proto_row = row; proto_shown = f.rule.proto };
}

-- draw_iface(w, 2, 51, row, rule)
abbrev pub draw_iface : ℕ → Form → Form
draw_iface row f = record f {
  screen = record (f.screen) { iface_row = row; iface_shown = f.rule.ifs };
}

-- draw_options(w, 7, 51, row, rule)
abbrev pub draw_options : ℕ → Form → Form
draw_options row f = record f {
  screen = record (f.screen) {
    option_row = row;
    option_proto_shown = f.rule.proto;
    option_shown = f.rule.option;
  };
}

-- buttons(w, selected)
abbrev pub buttons : ℕ → Form → Form
buttons selected f = record f { screen = record (f.screen) { button = selected } }

-- The defaults. `other_a` and `other_b` are never written: `junk` is the text that the stack holds
-- there.
abbrev pub default_rule : Text → Ruleset
default_rule junk = record zeroed {
  action = allow;
  proto = tcp;
  ifs = any;
  option = no_option;
  other_a = junk;
  other_b = junk;
}

-- The form as it is first drawn, with the cursor at 1.
unfoldable pub initial : Text → Form
initial junk = record {
  rule = default_rule junk;
  src = [];
  dst = [];
  src_port = [];
  dst_port = [];
  screen = record {
    action_row = 1;
    action_shown = allow;
    proto_row = 0;
    proto_shown = tcp;
    iface_row = 0;
    iface_shown = any;
    option_row = 0;
    option_proto_shown = tcp;
    option_shown = no_option;
    button = 0;
  };
}
