-- ===== src/Firewall/Menu.antt =====
-- The firewall menu and the NAT menu on the device database.
use closed_bsd.Base.{ℕ, ◌≡◌, refl, true, none, some, List, [], ◌∷◌, ◌++◌, map, Bool, All, Option}
use closed_bsd.Advanced.{Choice}
use closed_bsd.Boot.Later.{with_scripts, boot-with_scripts}
use closed_bsd.Boot.Replay.{after_run}
use closed_bsd.Boot.{boot}
use closed_bsd.Btree.{Btree}
use closed_bsd.Devices.Device.{Device, State}
use closed_bsd.Devices.Lookup.{by_id, ext_exist-dev_ext}
use closed_bsd.Devices.Search.{ext_exist, dev_ext}
use closed_bsd.Devices.Table.{IsTable, table}
use closed_bsd.Fault.{ok}
use closed_bsd.Firewall.Basic.{basic_cmds, boot-basic}
use closed_bsd.Firewall.{main_fw_menu, done}
use closed_bsd.Nat.Reload.{IsName, Enabled, Holds, divert_via, enable_nat-Enabled}
use closed_bsd.Nat.{nat_window}
use closed_bsd.Nat
use closed_bsd.Rules.Script.Contents.{IsCommand}
use closed_bsd.Rules.Script.{line}
use closed_bsd.Text.{Text, codes}
use closed_bsd.World.{World, rules, nat}

module _ (b : Btree Device) where
  -- The basic firewall is chosen in the menu, on a well formed device database that can be
  -- opened, with an external device whose name has 3 to 5 bytes on one line, where both scripts
  -- can be opened. The menu returns, and at a later start with both scripts as they were left the
  -- boot program's calls of load_ruleset and natset run the divert of that device's packets, the
  -- four rules that pass everything, and natd on the device, and nothing else.
  pub main_fw_menu-boot :
      (choices : List Choice) (save : Bool) (s : State b) (w later : World) {db : b.Db} {i : ℕ}
      → s.file ≡ some db
      → s.opens ≡ true
      → IsTable (table b s)
      → ext_exist b s ≡ ok (some i)
      → ((d : Device) → by_id i (table b s) ≡ some d → IsName d.device)
      → w.opens rules ≡ true
      → w.opens nat ≡ true
      → (d : Device) × (w' : World) × (by_id i (table b s) ≡ some d)
        × (d.ext ≡ 1)
        × (main_fw_menu b true 1 choices save s w ≡ ok (w', done))
        × (boot (with_scripts w' later)
            ≡ ok (
                after_run (with_scripts w' later) (
                  divert_via d.device
                  ∷ (map line basic_cmds
                      ++ ((codes "/sbin/natd -n " ++ (d.device ++ codes "\n")) ∷ [])))))
  unfolding main_fw_menu
  main_fw_menu-boot choices save s w later f o t e names p q =
      let (d, found, ext, name) = ext_exist-dev_ext b s f o t e in
      let (w', secured, booted) = boot-basic d.device save w (names d found) p q in
      (d, w', found, ext, rw (name, e) secured, boot-with_scripts w' later _ booted)

  -- NAT is enabled in its menu, with a well formed device database that can be opened, an
  -- external device whose name has 3 to 5 bytes on one line, and a script of commands of one line
  -- each, where both scripts can be opened: /etc/nat names the device, no other file changes, and
  -- natd, the flush, the divert rule and the script are run in this order.
  pub nat_window-Enabled :
      (s : State b) (cmds : List Text) (w : World) {db : b.Db} {i : ℕ}
      → s.file ≡ some db
      → s.opens ≡ true
      → IsTable (table b s)
      → ext_exist b s ≡ ok (some i)
      → ((d : Device) → by_id i (table b s) ≡ some d → IsName d.device)
      → All IsCommand cmds
      → w.opens rules ≡ true
      → w.opens nat ≡ true
      → Holds cmds w
      → (d : Device) × (w' : World) × (by_id i (table b s) ≡ some d)
        × (nat_window b true 1 s w ≡ ok (w', Nat.success))
        × Enabled d.device cmds w w'
  unfolding nat_window
  nat_window-Enabled s cmds w f o t e names h p q c =
      let (d, found, ext, name) = ext_exist-dev_ext b s f o t e in
      let (w', returned, enabled) = enable_nat-Enabled d.device cmds w (names d found) h p q c in
      (d, w', found, rw (e, name) (rw returned refl), enabled)

  -- Without an external device neither menu changes a file or runs a command; the NAT menu fails.
  pub menus_need_ext :
      (choices : List Choice) (save : Bool) (s : State b) (w : World) {device : Option Text}
      → ext_exist b s ≡ ok none
      → dev_ext b s ≡ ok device
      → (main_fw_menu b true 1 choices save s w ≡ ok (w, done))
        × (nat_window b true 1 s w ≡ ok (w, Nat.failure))
  unfolding main_fw_menu nat_window
  menus_need_ext choices save s w e n = (rw (n, e) refl, rw e refl)
