-- ===== src/IfsCfg/Examples.antt =====
-- Concrete runs of the form for a static address (closedbsd/config/ifcon.c).
use closed_bsd.Base.{List, ◌≡◌, refl, true, none, some, [], ◌∷◌}
use closed_bsd.Devices.Device.{State}
use closed_bsd.Devices.Listed.{listed, inner, state}
use closed_bsd.Devices.Lookup.{by_id}
use closed_bsd.Devices.Search.{find}
use closed_bsd.Devices.Table.{table}
use closed_bsd.IfsCfg.Store.{Stack, Answers}
use closed_bsd.IfsCfg.{Fields}
use closed_bsd.Text.{Text, codes}

abbrev fields : Fields
fields = record { ip = codes "10.0.0.2"; netmask = codes "255.0.0.0"; gateway = codes "10.0.0.1" }

-- A database with the inner device alone.
abbrev inside : State listed
inside = record state { file = some ((0, record inner { id = 0 }) ∷ []) }

abbrev stack : Stack
stack = record { id = 77; ext = 77 }

abbrev answers : Answers
answers = record { default_gateway = true; replace_gateway = true; overwrite = true }

no_77 : by_id 77 (table listed state) ≡ none
unfolding find
no_77 = refl

-- Two devices, of which the second is picked in the menu.
abbrev names : List Text
names = codes "lo0" ∷ codes "fxp9" ∷ []
