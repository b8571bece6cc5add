-- ===== src/Boxes/Row.antt =====
-- What the draw functions print: one line of a box, in the attribute of a selected entry or in the
-- plain one.
use Prim.Native.String.{String}
use closed_bsd.Base.{Bool, true, false}
use closed_bsd.Text.{Text, codes}

pub record Row : Type 0 where
  pub is_lit : Bool
  pub text : Text

-- wattrset(w, check_selected_attr); mvwprintw(w, y + i, x + 1, …);
abbrev pub lit : String → Row
lit s = record { is_lit = true; text = codes s }

-- wattrset(w, dialog_attr); mvwprintw(w, y + i, x + 1, …);
abbrev pub plain : String → Row
plain s = record { is_lit = false; text = codes s }
