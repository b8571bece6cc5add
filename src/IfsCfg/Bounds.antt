-- ===== src/IfsCfg/Bounds.antt =====
-- What the loop of `ifs_cfg` does to the fields.
use closed_bsd.Base.{◌<◌, ◌≡◌, refl, [], ◌∷◌, lt→ltb, length}
use closed_bsd.Fault.{ok}
use closed_bsd.IfsCfg.{Fields, Typed, confirmed, round, rounds}
use closed_bsd.Keyboard.{enter}
use closed_bsd.Text.{Text}

abbrev pub line : Text → Typed
line t = record { text = t; key = enter }

abbrev pub press_enter : Typed
press_enter = line []

-- The three lines and OK, each left by return.
pub rounds-lines :
    (ip netmask gateway : Text) (d : Fields)
    → length ip < 16
    → length netmask < 16
    → length gateway < 16
    → rounds (line ip ∷ line netmask ∷ line gateway ∷ press_enter ∷ []) 1 d
      ≡ ok (confirmed (record { ip = ip; netmask = netmask; gateway = gateway }))
unfolding rounds round
rounds-lines ip netmask gateway d a b c =
    rw (lt→ltb (length ip) 16 a, lt→ltb (length netmask) 16 b, lt→ltb (length gateway) 16 c) refl
