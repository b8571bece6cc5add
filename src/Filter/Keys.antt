-- ===== src/Filter/Keys.antt =====
-- The other keys of the form: what each does with the cursor, the rule and the screen.
use closed_bsd.Base.{ℕ, ◌||◌, List, [], ltb, ◌==◌, if◌then◌else◌, length}
use closed_bsd.Keyboard.{Edit}
use closed_bsd.Fault.{Result, ok}
use closed_bsd.Filter.Down.{Stop, at_key, down}
use closed_bsd.Filter.Form.{Form, draw_action, draw_proto, draw_iface, draw_options, buttons}
use closed_bsd.Rules.Ruleset.{
  Action, allow, deny, reset, Proto, ip, tcp, udp, icmp, Flow, any, incoming, outgoing, no_option,
  setup, established, frag, ssrr, lsrr, ts, echo_reply, dest_unreach, echo_request, Ruleset,
}
use closed_bsd.Text.{Text, codes, snprintf, starts_with}

-- case KEY_LEFT
unfoldable pub left : ℕ → Form → ℕ × Form
left p f =
    if p == 21
    then (1, draw_iface 0 (draw_action 1 f))
    else if p == 22
    then (2, draw_iface 0 (draw_action 2 f))
    else if p == 23
    then (3, draw_iface 0 (draw_action 3 f))
    else if p == 24
    then (4, draw_options 0 (draw_proto 1 f))
    else if p == 25
    then (5, draw_options 0 (draw_proto 2 f))
    else if p == 26
    then (6, draw_options 0 (draw_proto 3 f))
    else if p == 27
    then (7, draw_options 0 (draw_proto 4 f))
    else (p, f)

-- case KEY_RIGHT
unfoldable pub right : ℕ → Form → ℕ × Form
right p f =
    if p == 1
    then (21, draw_iface 1 (draw_action 0 f))
    else if p == 2
    then (22, draw_iface 2 (draw_action 0 f))
    else if p == 3
    then (23, draw_iface 3 (draw_action 0 f))
    else if p == 4
    then (24, draw_options 1 (draw_proto 0 f))
    else if p == 5
    then (25, draw_options 2 (draw_proto 0 f))
    else if p == 6
    then (26, draw_options 3 (draw_proto 0 f))
    else if p == 7
    then (27, draw_options 4 (draw_proto 0 f))
    else (p, f)

-- case KEY_UP, where it ends in `break`.
unfoldable pub step_up : ℕ → Form → ℕ × Form
step_up p f =
    if p == 1
    then (1, draw_action 1 f)
    else if p == 2
    then (1, draw_action 1 f)
    else if p == 3
    then (2, draw_action 2 f)
    else if p == 4
    then (3, draw_action 3 (draw_proto 0 f))
    else if p == 5
    then (4, draw_proto 1 f)
    else if p == 6
    then (5, draw_proto 2 f)
    else if p == 7
    then (6, draw_proto 3 f)
    else if p == 8
    then (7, draw_proto 4 (buttons 0 f))
    else if p == 21
    then (7, draw_proto 4 (draw_iface 0 f))
    else if p == 22
    then (21, draw_iface 1 f)
    else if p == 23
    then (22, draw_iface 2 f)
    else if p == 24
    then (23, draw_iface 3 (draw_options 0 f))
    else if p == 25
    then (24, draw_options 1 f)
    else if p == 26
    then (25, draw_options 2 f)
    else if p == 27
    then (26, draw_options 3 f)
    else (p, f)

-- case KEY_UP: from the buttons it jumps to the label `down`.
unfoldable pub up : List Edit → ℕ → Form → Result Stop
unfolding step_up
up edits p f =
    if p == 12
    then down edits 10 f
    else if p == 13
    then down edits 11 f
    else ok (let (q, g) = step_up p f in at_key q g edits)

-- case 9, the tabulator
unfoldable pub tab : ℕ → Form → ℕ × Form
tab p f =
    if p == 1 || p == 2 || p == 3
    then (21, draw_iface 1 (draw_action 0 f))
    else if p == 4 || p == 5 || p == 6 || p == 7
    then (24, draw_options 1 (draw_proto 0 f))
    else if p == 21 || p == 22 || p == 23
    then (5, draw_proto 1 (draw_iface 0 f))
    else (p, f)

abbrev set_action : Action → Form → Form
set_action a f = record f { rule = record (f.rule) { action = a } }

abbrev set_ifs : Flow → Form → Form
set_ifs a f = record f { rule = record (f.rule) { ifs = a } }

abbrev set_option : ℕ → Form → Form
set_option o f = record f { rule = record (f.rule) { option = o } }

abbrev set_proto : Proto → Form → Form
set_proto a f = record f { rule = record (f.rule) { proto = a } }

-- The switch on the protocol inside the cases 24 to 27; `row` is the row that is drawn again. UDP
-- has no options and draws nothing.
choose_option : Proto → ℕ → ℕ → ℕ → ℕ → Form → Form
choose_option tcp row t i c f = draw_options row (set_option t f)
choose_option ip row t i c f = draw_options row (set_option i f)
choose_option udp row t i c f = f
choose_option icmp row t i c f = draw_options row (set_option c f)

-- case 32, the space bar
unfoldable pub space : ℕ → Form → Form
unfolding choose_option
space p f =
    if p == 1
    then draw_action 1 (set_action allow f)
    else if p == 2
    then draw_action 2 (set_action deny f)
    else if p == 3
    then draw_action 3 (set_action reset f)
    else if p == 4
    then draw_options 0 (draw_proto 1 (set_option no_option (set_proto tcp f)))
    else if p == 5
    then draw_options 0 (draw_proto 2 (set_option no_option (set_proto ip f)))
    else if p == 6
    then draw_options 0 (draw_proto 3 (set_proto udp f))
    else if p == 7
    then draw_options 0 (draw_proto 4 (set_option no_option (set_proto icmp f)))
    else if p == 21
    then draw_iface 1 (set_ifs incoming f)
    else if p == 22
    then draw_iface 2 (set_ifs outgoing f)
    else if p == 23
    then draw_iface 3 (set_ifs any f)
    else if p == 24
    then choose_option f.rule.proto 1 established ssrr echo_request f
    else if p == 25
    then choose_option f.rule.proto 2 setup lsrr dest_unreach f
    else if p == 26
    then choose_option f.rule.proto 3 frag ts echo_reply f
    else if p == 27
    then choose_option f.rule.proto 4 no_option no_option no_option f
    else f

-- snprintf(rule.src, sizeof(rule.src), "%s", src), and "any" for an empty address.
abbrev pub host_of : Text → Text
host_of s = let t = snprintf 128 s in if ltb (length t) 1 then snprintf 128 (codes "any") else t

-- A port that begins with "any" is cleared; another is cut to four bytes.
abbrev pub port_of : Text → Text
port_of s = if starts_with (codes "any") s then [] else snprintf 5 s

-- case 10, the return key, at the button OK: the rule that is inserted.
unfoldable pub entered : Form → Ruleset
entered f = record (f.rule) {
  src = host_of f.src;
  dst = host_of f.dst;
  src_port = port_of f.src_port;
  dst_port = port_of f.dst_port;
}
