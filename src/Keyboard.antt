-- ===== src/Keyboard.antt =====
-- What the user types: the keys that curses' wgetch returns to the forms of closedbsd/config, and
-- the lines that libdialog's line_edit leaves in their fields.
pub mod Typed
use closed_bsd.Base.{ℕ, ltb, length, if◌then◌else◌}
use closed_bsd.Fault.{Result, ok, fault, overflow}
use closed_bsd.Text.{Text}

-- `other` is every key that no form reads.
pub data Key : Type 0 where
  key_down key_left key_right key_up space_bar enter tabulator other : Key

-- The key by which the user left line_edit.
pub data EditKey : Type 0 where
  edit_down edit_up edit_other : EditKey

-- One call of line_edit, which is libdialog's: the text that it leaves in the field, and its key.
pub record Edit : Type 0 where
  pub text : Text
  pub key : EditKey

-- line_edit writes its text and a zero byte into an array of `size` bytes.
abbrev pub stored {ℓ} : {A : Type ℓ} → ℕ → Text → A → Result A
stored size t f = if ltb (length t) size then ok f else fault overflow
