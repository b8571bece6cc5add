-- ===== src/Setup/Listed.antt =====
-- A device that is configured from the menu.
use closed_bsd.Base.{ℕ, ◌≡◌, some, List, get_elem?}
use closed_bsd.Btree.{Btree}
use closed_bsd.Devices.Device.{Device}
use closed_bsd.Rules.Script as Script
use closed_bsd.Setup.{Entry, Setup}
use closed_bsd.Text.{Text}

-- Each name has its entry, at its place.
abbrev ArePrompts : List Text → List Entry → Type 0
ArePrompts names es =
    (k : ℕ) (name : Text)
    → get_elem? names k ≡ some name
    → (t : Text) × (get_elem? es k ≡ some (record { prompt = name; title = t }))
