-- ===== src/Devices/Dhcp.antt =====
-- Setting a device to DHCP (`dev_config` of closedbsd/config/devices.c).
use closed_bsd.Base.{
  ℕ, ◌+◌, ◌≡◌, refl, sym, ap, ◌∙◌, Option, none, some, true, false, inl, inr, arith, List, [], ltb,
  length, if◌then◌else◌, Bool-cases,
}
use mathlib.Core.Path.{subst}
use closed_bsd.Btree.{Btree, Stored, has_key}
use closed_bsd.Devices.Device.{Device, State, enabled}
use closed_bsd.Devices.Table.{
  IsTable, table, insert_device-Inserted, insert_device-IsTable, next_device_id-length,
  has_key-below,
}
use closed_bsd.Devices.Search.{next_device_id}
use closed_bsd.Devices.Update.{
  success, insert_device, dev_config_dhcp, dhcp_device, conf_if_asked, write_dhcp_conf,
}
use closed_bsd.Fault.{ok, fault, overflow, ok-injective, >>=-eq-ok}
use closed_bsd.Text.{Text}

built_device :
    (id : ℕ) (device : Text) {d : Device}
    → (if ltb (length device) 6 then ok (dhcp_device id device) else fault overflow) ≡ ok d
    → d ≡ dhcp_device id device
built_device id device e = elim (Bool-cases (ltb (length device) 6)) [
  | inl y ↦ sym (ok-injective (rw y at e))
  | inr n ↦ let e' = rw n at e in cc
]

pub next-free : (m : List (ℕ × Device)) → IsTable m → has_key (length m) m ≡ false
next-free m t = elim (Bool-cases (has_key (length m) m)) [
  | inl y ↦ absurd (omega (arith, has_key-below (length m) (length m) m t.below y))
  | inr n ↦ n
]

module _ (b : Btree Device) where
  conf_if_asked-file :
      (host : Option Text) (device : Text) (s : State b) {s' : State b}
      → conf_if_asked b host device s ≡ ok s'
      → s'.file ≡ s.file
  unfolding write_dhcp_conf
  conf_if_asked-file none device s e = ap (λ (x : State b). x.file) (sym (ok-injective e))
  conf_if_asked-file (some h) device s e = ground arith

  -- The steps of a configuration that succeeds.
  pub dev_config_dhcp-stores :
      (device : Text) (host : Option Text) (s : State b) {db : b.Db} {s' : State b}
      → s.file ≡ some db
      → s.opens ≡ true
      → dev_config_dhcp b device host s ≡ ok (s', success)
      → (s₁ : State b) × (s₁.file ≡ s.file)
        × (insert_device b (dhcp_device (length (table b s)) device) s₁ ≡ ok (s', success))
  unfolding dev_config_dhcp
  dev_config_dhcp-stores device host s {s' = s'} f o e =
      let (id, counted, rest) = >>=-eq-ok (next_device_id b s) _ e in
      let (d, built, rest') =
        >>=-eq-ok (if ltb (length device) 6 then ok (dhcp_device id device) else fault overflow) _
          rest in
      let (s₁, written, stored) = >>=-eq-ok (conf_if_asked b host device s) _ rest' in
      let number : id ≡ length (table b s) =
        ok-injective (sym counted ∙ next_device_id-length b s f o) in
      let named : d ≡ dhcp_device id device = built_device id device built in
      (s₁, conf_if_asked-file host device s written, rw (← number, ← named) stored)

  pub table-file : (s s₁ : State b) → s₁.file ≡ s.file → table b s₁ ≡ table b s
  table-file s s₁ e = rw e refl

  -- Where the well formed database is there and may be opened, a device that dev_config sets to
  -- DHCP and stores is a new record under the next id, also if the device had one already:
  -- external, with DHCP and without addresses. The table stays well formed and has one record
  -- more.
  pub dev_config_dhcp-IsTable :
      (device : Text) (host : Option Text) (s : State b) {db : b.Db} {s' : State b}
      → s.file ≡ some db
      → s.opens ≡ true
      → IsTable (table b s)
      → dev_config_dhcp b device host s ≡ ok (s', success)
      → IsTable (table b s')
        × (length (table b s') ≡ length (table b s) + 1)
        × Stored
            (length (table b s))
            (record {
              id = length (table b s);
              device = device;
              ip = [];
              netmask = [];
              gateway = [];
              ext = 1;
              dhcp = enabled;
            })
            (table b s)
            (table b s')
  dev_config_dhcp-IsTable device host s {s' = s'} f o t e =
      let n = length (table b s) in
      let d = dhcp_device n device in
      let (s₁, same, stored) = dev_config_dhcp-stores device host s {s' = s'} f o e in
      let tables : table b s₁ ≡ table b s = table-file s s₁ same in
      let (kept, grown) =
        insert_device-IsTable b d s₁ stored (rw tables t) (rw tables (omega arith)) in
      (
        kept,
        grown ∙ rw tables (rw (next-free (table b s) t) refl),
        subst (λ m. Stored n d m (table b s')) tables (insert_device-Inserted b d s₁ stored).stored,
      )
