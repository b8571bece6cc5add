-- ===== src/IfsCfg.antt =====
-- The form that gives a device a static address (`ifs_cfg` of closedbsd/config/ifcon.c).
pub mod Store
pub mod Bounds
pub mod Configured
mod Examples
use closed_bsd.Base.{
  ℕ, ◌+◌, ◌-◌, Bool, true, false, Option, none, some, List, [], ◌∷◌, ltb, ◌==◌, if◌then◌else◌,
  length,
}
use closed_bsd.Btree.{Btree}
use closed_bsd.Devices.Device.{Device, State, Dhcp, disabled}
use closed_bsd.Devices.Search.{device_exist, dev_ip, dev_netmask, dev_gateway}
use closed_bsd.Fault.{Result, ok, ◌>>=◌}
use closed_bsd.Keyboard.{Key, key_down, key_up, tabulator, enter, stored}
use closed_bsd.Text.{Text, snprintf, printed}

-- The texts of `struct device d` that the form edits.
pub record Fields : Type 0 where
  pub ip : Text  -- char [16]
  pub netmask : Text  -- char [16]
  pub gateway : Text  -- char [16]

abbrev pub no_fields : Fields
no_fields = record { ip = []; netmask = []; gateway = [] }

-- snprintf(d.ip, sizeof(d.ip), "%s", …); if (strlen(d.ip) > 6) …; else bzero(d.ip, sizeof(d.ip));
abbrev pub shown : Option Text → Text
shown v = let t = snprintf 16 (printed v) in if ltb 6 (length t) then t else []

-- What the user does in one round: at a field the line that line_edit leaves and the key by which
-- it is left, at a button the key alone.
pub record Typed : Type 0 where
  pub text : Text
  pub key : Key

-- switch on the key, for `j` 1 to 3: it goes on by KEY_DOWN, the tabulator and return, and back by
-- KEY_UP to `back`.
abbrev pub after_line : ℕ → ℕ → Key → ℕ
after_line j back key_down = j + 1
after_line j back tabulator = j + 1
after_line j back enter = j + 1
after_line j back key_up = back
after_line j back _ = j

-- Where a round leads: to another value of `j`, or out of the loop.
pub data Next : Type 0 where
  at : ℕ → Next
  set_done : Next
  cancel : Next

-- case 4, the button OK
abbrev pub at_ok : Key → Next
at_ok key_up = at 3
at_ok tabulator = at 5
at_ok key_down = at 5
at_ok enter = set_done
at_ok _ = at 4

-- case 5, the button Cancel
abbrev pub at_cancel : Key → Next
at_cancel key_up = at 4
at_cancel key_down = at 4
at_cancel tabulator = at 1
at_cancel enter = cancel
at_cancel _ = at 5

-- One round of the loop.
unfoldable pub round : ℕ → Typed → Fields → Result (Fields × Next)
round j e d =
    if j == 1
    then (stored 16 e.text (record d { ip = e.text }) >>= λ g. ok (g, at (after_line 1 1 e.key)))
    else if j == 2
    then (stored 16 e.text (record d { netmask = e.text }) >>= λ g.
        ok (g, at (after_line 2 1 e.key)))
    else if j == 3
    then (stored 16 e.text (record d { gateway = e.text }) >>= λ g.
        ok (g, at (after_line 3 2 e.key)))
    else if j == 4
    then ok (d, at_ok e.key)
    else if j == 5
    then ok (d, at_cancel e.key)
    else ok (d, at j)

-- How the loop ends: by OK with the fields, by Cancel, or where the user's input runs out.
pub data Ended : Type 0 where
  confirmed : Fields → Ended
  cancelled : Ended
  waiting : ℕ → Fields → Ended

abbrev pub continue : Fields × Next → (ℕ → Fields → Result Ended) → Result Ended
continue (d, at j) rounds = rounds j d
continue (d, set_done) rounds = ok (confirmed d)
continue (d, cancel) rounds = ok cancelled

-- while (!done) switch (j) …
unfoldable pub rounds : List Typed → ℕ → Fields → Result Ended
unfolding round
rounds [] j d = ok (waiting j d)
rounds (e ∷ es) j d = round j e d >>= λ r. continue r (rounds es)

module _ (b : Btree Device) where
  -- The fields as the form first shows them: those of a device that is in the database, or empty.
  unfoldable pub first_fields : Text → State b → Result Fields
  first_fields dev s = device_exist b dev s >>= λ id. elim id [
    | none ↦ ok no_fields
    | some i ↦
        (dev_ip b dev s >>= λ ip. dev_netmask b dev s >>= λ netmask.
        dev_gateway b dev s >>= λ gateway.
        ok (record { ip = shown ip; netmask = shown netmask; gateway = shown gateway }))
  ]
