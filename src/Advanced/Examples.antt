-- ===== src/Advanced/Examples.antt =====
-- A concrete session in the menus of closedbsd/config/fwmenu.c.
use closed_bsd.Advanced.Booted.{boot-afm_menu}
use closed_bsd.Advanced.Editor.{
  Op, type_rule, type_raw, remove, look, choice_of, rule_title, after_all, AreValid, Shows,
}
use closed_bsd.Advanced.Refines.{afm_menu-after_all, KeepsOthers}
use closed_bsd.Advanced.{afm_menu}
use closed_bsd.Base.{◌≡◌, refl, true, List, [], ◌∷◌, map, none, arith}
use closed_bsd.Boot.Later.{with_scripts}
use closed_bsd.Boot.Replay.{after_run}
use closed_bsd.Boot.{boot}
use closed_bsd.Fault.{ok}
use closed_bsd.Filter.Session.{AreTyped, typed_rule}
use closed_bsd.Keyboard.{Edit, edit_down}
use closed_bsd.Rules.Command.{tail_pieces}
use closed_bsd.Rules.Menu.Entries.{rule_line, IsTitle}
use closed_bsd.Text.{codes, contains, starts_with}
use closed_bsd.World.{World}

abbrev host : Edit
host = record { text = codes "10.0.0.1"; key = edit_down }

abbrev empty : Edit
empty = record { text = []; key = edit_down }

host_typed : AreTyped host empty empty empty
host_typed = record {
  src_host = record { forwards = λ e. cc; short = omega arith };
  src_port = record { forwards = λ e. cc; short = omega arith };
  dst_host = record { forwards = λ e. cc; short = omega arith };
  dst_port = record { forwards = λ e. cc; short = omega arith };
}

host-IsTitle : IsTitle (rule_title (typed_rule host empty empty empty []))
unfolding contains tail_pieces starts_with
host-IsTitle = record {
  first = b' ';
  others = codes "add allow tcp from 10.0.0.1 to any";
  splits = refl;
  first_not_q = refl;
  no_newline = refl;
  short = omega arith;
}

ping-IsTitle : IsTitle (codes " add allow icmp from any to any")
unfolding contains
ping-IsTitle = record {
  first = b' ';
  others = codes "add allow icmp from any to any";
  splits = refl;
  first_not_q = refl;
  no_newline = refl;
  short = omega arith;
}

abbrev session : List Op
session =
    type_raw (codes "add allow icmp from any to any")
    ∷ look
    ∷ type_rule [] host empty empty empty
    ∷ remove 0 []
    ∷ []

session-AreValid : AreValid session []
session-AreValid =
    (ping-IsTitle, (tt, ((host_typed, host-IsTitle), ((omega arith, omega arith, tt), tt))))

abbrev world : World
world = record { content = λ _. none; opens = λ _. true; ran = [] }

world-Shows : Shows [] world
world-Shows = record { opened = refl; script_is = refl; titles = tt }

afm_menu-after_all_example :
    (w' : World) × (afm_menu (map choice_of session) world ≡ ok w')
    × Shows (after_all session []) w'
    × KeepsOthers world w'
afm_menu-after_all_example = afm_menu-after_all session [] world session-AreValid world-Shows

boot-afm_menu_example :
    (w' : World) × (afm_menu (map choice_of session) world ≡ ok w')
    × (boot (with_scripts w' world)
        ≡ ok (after_run (with_scripts w' world) (map rule_line (after_all session []))))
boot-afm_menu_example = boot-afm_menu session [] world world session-AreValid world-Shows refl
