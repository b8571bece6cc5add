-- ===== src/Devices/Examples.antt =====
-- Concrete runs of the device code (closedbsd/config/db.c) on a database that is a list.
use closed_bsd.Base.{ℕ, ◌≡◌, refl, [], ◌∷◌, some, none, arith, ◌==◌, if◌then◌else◌, length}
use closed_bsd.Btree.{Stored}
use closed_bsd.Devices.Dhcp.{dev_config_dhcp-IsTable}
use closed_bsd.Devices.Device.{Device, State}
use closed_bsd.Devices.Listed.{upsert, listed, outer, inner, state, state-IsTable, found_outer}
use closed_bsd.Devices.Lookup.{by_id, cleared, OnlyExt, unset_ext-cleared}
use closed_bsd.Devices.Search.{find, is_ext, next_device_id}
use closed_bsd.Devices.Table.{IsTable, table, insert_device-IsTable}
use closed_bsd.Devices.Update.{
  dev_config_dhcp, insert_device, store_open, configure, unset_ext, success, dhcp_device,
}
use closed_bsd.Fault.{ok}
use closed_bsd.Text.{codes}

-- After both devices are stored.
abbrev both : State listed
both = record state { file = some ((0, outer) ∷ (1, inner) ∷ []); ran = configure inner }

stored_inner : insert_device listed inner state ≡ ok (both, success)
unfolding insert_device store_open upsert
stored_inner = refl

insert_device-IsTable_example : IsTable (table listed both) × (length (table listed both) ≡ 2)
insert_device-IsTable_example =
    insert_device-IsTable listed inner state stored_inner state-IsTable (omega arith)

-- The outer device without its mark.
abbrev unmarked : State listed
unmarked = record state { file = some ((0, cleared outer) ∷ []); ran = configure (cleared outer) }

stored_unmarked : insert_device listed (cleared outer) state ≡ ok (unmarked, success)
unfolding insert_device store_open upsert
stored_unmarked = refl

unset_ext-cleared_example :
    (unset_ext listed 0 state ≡ ok (unmarked, success))
    × ((j : ℕ)
        → by_id j (table listed unmarked)
          ≡ (if 0 == j then some (cleared outer) else by_id j (table listed state)))
    × (OnlyExt 0 (table listed state) → find is_ext (table listed unmarked) ≡ none)
unset_ext-cleared_example =
    unset_ext-cleared listed 0 state outer refl refl state-IsTable found_outer stored_unmarked

-- The outer device is set to DHCP once more.
abbrev again : Device
again = dhcp_device 1 (codes "fxp0")

abbrev twice : State listed
twice = record state { file = some ((0, outer) ∷ (1, again) ∷ []); ran = configure again }

configured_again : dev_config_dhcp listed (codes "fxp0") none state ≡ ok (twice, success)
unfolding dev_config_dhcp insert_device store_open upsert next_device_id
configured_again = refl

dev_config_dhcp-IsTable_example :
    IsTable (table listed twice)
    × (length (table listed twice) ≡ 2)
    × Stored 1 again (table listed state) (table listed twice)
dev_config_dhcp-IsTable_example =
    dev_config_dhcp-IsTable listed (codes "fxp0") none state refl refl state-IsTable
      configured_again
