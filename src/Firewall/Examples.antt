-- ===== src/Firewall/Examples.antt =====
-- Concrete runs of the firewall menu and the NAT menu (closedbsd/config/fwmenu.c, nat.c).
use closed_bsd.Base.{
  ◌≡◌, refl, true, false, none, some, [], ◌∷◌, ◌++◌, map, arith, inr, eq_of_some, sym, ◌∙◌,
  if◌then◌else◌,
}
use mathlib.Core.Path.{subst}
use closed_bsd.Boot.Later.{with_scripts}
use closed_bsd.Boot.Replay.{after_run}
use closed_bsd.Boot.{boot}
use closed_bsd.Devices.Device.{Device}
use closed_bsd.Devices.Listed.{listed, state, state-IsTable, found_outer, ext_is_outer}
use closed_bsd.Devices.Lookup.{by_id}
use closed_bsd.Devices.Table.{table}
use closed_bsd.Fault.{ok}
use closed_bsd.Firewall.Basic.{basic_cmds, basic-Secured, Secured}
use closed_bsd.Firewall.Menu.{main_fw_menu-boot, nat_window-Enabled}
use closed_bsd.Firewall.{main_fw_menu, basic, done}
use closed_bsd.Nat.Reload.{IsName, Enabled, divert_via, flush, disable_nat-after_run}
use closed_bsd.Nat.{nat_window, disable_nat}
use closed_bsd.Nat
use closed_bsd.Rules.Script.Contents.{IsCommand, lines}
use closed_bsd.Rules.Script.{line}
use closed_bsd.Text.{Text, codes, contains}
use closed_bsd.World.{World, rules, nat, same, unlink}

-- No scripts yet.
abbrev world : World
world = record { content = λ _. none; opens = λ _. true; ran = [] }

fxp0-IsName : IsName (codes "fxp0")
unfolding contains
fxp0-IsName = record { no_newline = refl; long = omega arith; short = omega arith }

outer-IsName : (d : Device) → by_id 0 (table listed state) ≡ some d → IsName d.device
outer-IsName d found =
    subst (λ (x : Device). IsName x.device) (eq_of_some (sym found_outer ∙ found)) fxp0-IsName

main_fw_menu-boot_example :
    (d : Device) × (w' : World) × (by_id 0 (table listed state) ≡ some d)
    × (d.ext ≡ 1)
    × (main_fw_menu listed true 1 [] true state world ≡ ok (w', done))
    × (boot (with_scripts w' world)
        ≡ ok (
            after_run (with_scripts w' world) (
              divert_via d.device
              ∷ (map line basic_cmds
                  ++ ((codes "/sbin/natd -n " ++ (d.device ++ codes "\n")) ∷ [])))))
main_fw_menu-boot_example =
    main_fw_menu-boot listed [] true state world world refl refl state-IsTable ext_is_outer
      outer-IsName refl refl

nat_window-Enabled_example :
    (d : Device) × (w' : World) × (by_id 0 (table listed state) ≡ some d)
    × (nat_window listed true 1 state world ≡ ok (w', Nat.success))
    × Enabled d.device [] world w'
nat_window-Enabled_example =
    nat_window-Enabled listed state [] world refl refl state-IsTable ext_is_outer outer-IsName tt
      refl refl (inr (refl, refl))

basic-Secured_example :
    (w' : World) × (basic (codes "fxp0") false world ≡ ok (w', done))
    × Secured (codes "fxp0") false world w'
basic-Secured_example = basic-Secured (codes "fxp0") false world fxp0-IsName refl refl

abbrev ping : Text
ping = codes "/sbin/ipfw -q add allow icmp from any to any"

ping-IsCommand : IsCommand ping
unfolding contains
ping-IsCommand = record { no_newline = refl; short = omega arith }

-- A script of one command.
abbrev scripted : World
scripted = record world { content = λ f. if same f rules then some (lines (ping ∷ [])) else none }

disable_nat-after_run_example :
    disable_nat scripted ≡ ok (after_run (unlink scripted nat) (flush ∷ line ping ∷ []))
disable_nat-after_run_example =
    disable_nat-after_run (ping ∷ []) scripted (ping-IsCommand, tt) refl refl
