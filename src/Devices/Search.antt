-- ===== src/Devices/Search.antt =====
-- The loops over the device database that look for a record.
use closed_bsd.Base.{
  ℕ, ◌+◌, Bool, ◌&&◌, List, [], ◌∷◌, Option, none, some, ltb, ◌==◌, if◌then◌else◌, length,
}
use closed_bsd.Btree.{Btree}
use closed_bsd.Devices.Device.{Device, State, strcmp_eq}
use closed_bsd.Fault.{Result, ok, fault, null, ◌>>=◌}
use closed_bsd.Text.{Text}

-- while (seq(…) == 0) { bcopy(…, &d, …); if (test) return …; }
unfoldable pub find : (Device → Bool) → List (ℕ × Device) → Option Device
find test [] = none
find test ((k, d) ∷ m) = if test d then some d else find test m

abbrev pub field_of {ℓ} : {A : Type ℓ} → (Device → A) → Option Device → Option A
field_of f none = none
field_of f (some d) = some (f d)

abbrev pub is_ext : Device → Bool
is_ext d = d.ext == 1

abbrev pub is_named : Text → Device → Bool
is_named device d = strcmp_eq d.device device

abbrev pub longer : Text → Bool
longer s = ltb 1 (length s)

module _ (b : Btree Device) where
  open b use {scan}

  -- dbopen without O_CREAT. A null handle is used all the same.
  unfoldable pub records : State b → Result (List (ℕ × Device))
  records s = elim s.file [
    | none ↦ fault null
    | some db ↦ if s.opens then ok (scan db) else fault null
  ]

  -- `none` stands for the result NULL.
  unfoldable pub dev_ext : State b → Result (Option Text)
  unfolding records
  dev_ext s = records s >>= λ m. ok (field_of (λ d. d.device) (find is_ext m))

  -- `none` stands for the result -1.
  unfoldable pub ext_exist : State b → Result (Option ℕ)
  unfolding records
  ext_exist s = records s >>= λ m. ok (field_of (λ d. d.id) (find is_ext m))

  unfoldable pub count : List (ℕ × Device) → ℕ → ℕ
  count [] i = i
  count (_ ∷ m) i = count m (i + 1)

  unfoldable pub next_device_id : State b → Result ℕ
  unfolding records count
  next_device_id s = records s >>= λ m. ok (count m 0)

  unfoldable pub dtoi : Text → State b → Result (Option Text)
  unfolding records
  dtoi device s = records s >>= λ m. ok (field_of (λ d. d.ip) (find (is_named device) m))

  unfoldable pub dev_ip : Text → State b → Result (Option Text)
  unfolding records
  dev_ip device s =
      records s >>= λ m. ok (field_of (λ d. d.ip) (find (λ d. is_named device d && longer d.ip) m))

  unfoldable pub dev_netmask : Text → State b → Result (Option Text)
  unfolding records
  dev_netmask device s = records s >>= λ m.
      ok (field_of (λ d. d.netmask) (find (λ d. is_named device d && longer d.netmask) m))

  unfoldable pub dev_gateway : Text → State b → Result (Option Text)
  unfolding records
  dev_gateway device s = records s >>= λ m.
      ok (field_of (λ d. d.gateway) (find (λ d. is_named device d && longer d.gateway) m))

  unfoldable pub device_exist : Text → State b → Result (Option ℕ)
  unfolding records
  device_exist device s = records s >>= λ m. ok (field_of (λ d. d.id) (find (is_named device) m))
