-- ===== src/Keyboard/Typed.antt =====
-- The lines that a user types who goes from field to field (`inputs` and `forw_input` of
-- closedbsd/config/misc.c).
use closed_bsd.Base.{◌≤◌, ◌≢◌, length}
use closed_bsd.Keyboard.{Edit, edit_up}

-- A field is left forwards by every key but KEY_UP.
abbrev pub LeavesForwards : Edit → Type 0
LeavesForwards e = e.key ≢ edit_up

-- An address that fits in its field, and a port of at most four bytes.
pub record IsHost (e : Edit) : Type 0 where
  pub forwards : LeavesForwards e
  pub short : length e.text ≤ 33

pub record IsPort (e : Edit) : Type 0 where
  pub forwards : LeavesForwards e
  pub short : length e.text ≤ 4
