-- ===== src/Advanced.antt =====
-- The menus "Firewall Configuration" and "Advanced Firewall Configuration"
-- (closedbsd/config/fwmenu.c), from which the user inserts, deletes, lists and flushes rules.
pub mod Titles
pub mod Editor
pub mod Refines
pub mod Booted
mod Examples
use closed_bsd.Base.{ℕ, Bool, Option, List, [], ◌∷◌, ltb, length, if◌then◌else◌}
use closed_bsd.Fault.{Result, ok, fault, overflow, ◌>>=◌}
use closed_bsd.Filter.Loop as Filters
use closed_bsd.Filter.Loop.{proto_filter}
use closed_bsd.Keyboard.{Edit, Key}
use closed_bsd.PortForward.Loop as Forwards
use closed_bsd.PortForward.Loop.{proto_forward}
use closed_bsd.PortForward.{Stack}
use closed_bsd.Rules.Menu.{Item, delete_rule}
use closed_bsd.Rules.Script.{raw_add_rule}
use closed_bsd.Text.{Text, codes}
use closed_bsd.World.{World, rules, unlink, system}

-- `_afm_flush`
unfoldable pub afm_flush : World → World
afm_flush w = unlink (system w (codes "/sbin/ipfw -q flush")) rules

-- `_afi_manual`: dialog_inputbox writes the line that the user typed into `char result[256]`, and
-- returns 0 where the user chose OK.
unfoldable pub afi_manual : Bool → Text → World → Result World
afi_manual chose_ok result w =
    if ltb (length result) 256
    then ok (if chose_ok then (raw_add_rule result w).0 else w)
    else fault overflow

-- What the user chooses in the two menus, with what he types there, and with what the stack and the
-- memory behind the table hold.
pub data Choice : Type 0 where
  filter : Text → List Key → List Edit → Choice
  forward : Stack → List Key → List Edit → Choice
  manual : Bool → Text → Choice
  delete : Option ℕ → List Item → Choice
  list save flush : Choice

-- The files and commands that a form leaves.
abbrev pub left_filter : World → Filters.Outcome → World
left_filter w (Filters.added w' r) = w'
left_filter w _ = w

abbrev pub left_forward : Forwards.Outcome → World
left_forward (Forwards.going s w) = w
left_forward (Forwards.added w) = w
left_forward (Forwards.cancelled w) = w

-- The function that the chosen entry fires.
unfoldable pub fire : Choice → World → Result World
fire (filter junk ks edits) w = proto_filter junk ks edits w >>= λ o. ok (left_filter w o)
fire (forward stack ks edits) w = proto_forward stack ks edits w >>= λ o. ok (left_forward o)
fire (manual chose_ok result) w = afi_manual chose_ok result w
fire (delete choice beyond) w = delete_rule choice beyond w >>= λ r. ok r.0
fire list w = ok w
fire save w = ok w
fire flush w = ok (afm_flush w)

-- `_afm_menu` with `_afi_menu`: each entry returns with DITEM_CONTINUE, so that the menu goes on
-- until the user leaves it.
unfoldable pub afm_menu : List Choice → World → Result World
unfolding fire
afm_menu [] w = ok w
afm_menu (c ∷ cs) w = fire c w >>= λ w'. afm_menu cs w'
