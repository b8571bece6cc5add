-- ===== src/Boot/Configured.antt =====
-- What the boot program makes of devices that the shell has stored.
use closed_bsd.Base.{
  ℕ, ◌≤◌, ◌≡◌, refl, ap, ◌∙◌, true, Option-cases, inl, inr, Option, some, List, [], ◌∷◌, ◌++◌,
  arith, length, length-append, take-eq_of_le,
}
use mathlib.Core.Path.{subst}
use closed_bsd.Boot.Interfaces.{boot_cmds, boot_each, config_devices}
use closed_bsd.Btree.{Btree, Stored, added}
use closed_bsd.Devices.Device.{Device, State}
use closed_bsd.Devices.Dhcp.{dev_config_dhcp-stores, table-file}
use closed_bsd.Devices.Search.{records}
use closed_bsd.Devices.Table.{table, insert_device-Inserted}
use closed_bsd.Devices.Update.{success, dev_config_dhcp, dhcp_device}
use closed_bsd.Fault.{ok}
use closed_bsd.Text.{Text, codes}

-- A record stored under a new key into an empty file is its only one.
Stored-empty : {k : ℕ} {v : Device} {m : List (ℕ × Device)} → Stored k v [] m → m ≡ (k, v) ∷ []
Stored-empty (added e) = refl

module _ (b : Btree Device) where
  records-table_cons :
      (s : State b) {e : ℕ × Device} {m : List (ℕ × Device)}
      → s.opens ≡ true
      → table b s ≡ e ∷ m
      → records b s ≡ ok (e ∷ m)
  unfolding records
  records-table_cons s o t = elim (Option-cases s.file) [
    | inl n ↦ let t' = rw n at t in cc
    | inr (db, f) ↦ rw (f, records) (rw (o, records) (ap ok (rw f at t)))
  ]

  -- The first device of a new database is set to DHCP in the shell, which runs dhclient on it. At
  -- the next boot it gets an ifconfig with no address instead.
  pub config_devices-first_dhcp :
      (device : Text) (host : Option Text) (s : State b) {db : b.Db} {s' : State b}
      → s.file ≡ some db
      → s.opens ≡ true
      → table b s ≡ []
      → length device ≤ 5
      → dev_config_dhcp b device host s ≡ ok (s', success)
      → config_devices b s'
        ≡ ok (record s' {
          ran = s'.ran ++ ((codes "/sbin/ifconfig " ++ (device ++ codes "  netmask ")) ∷ []);
        })
  unfolding config_devices boot_each boot_cmds
  config_devices-first_dhcp device host s {s' = s'} f o t n e =
      let d = dhcp_device (length (table b s)) device in
      let (s₁, same, stored) = dev_config_dhcp-stores b device host s {s' = s'} f o e in
      let ins = insert_device-Inserted b d s₁ stored in
      let only =
        Stored-empty
          (subst (λ m. Stored d.id d m (table b s')) (table-file b s s₁ same ∙ t) ins.stored) in
      let read : records b s' ≡ ok ((0, dhcp_device 0 device) ∷ []) =
        records-table_cons s' ins.opens_same (only ∙ rw t refl) in
      rw read (
        rw
          (take-eq_of_le 255 (codes "/sbin/ifconfig " ++ (device ++ codes "  netmask "))
            (omega (arith, n, length-append device (codes "  netmask "))))
          refl)
