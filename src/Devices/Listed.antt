-- ===== src/Devices/Listed.antt =====
-- A database that is a list of records, and one that holds an external device.
use closed_bsd.Base.{
  ℕ, ◌≡◌, refl, true, List, [], ◌∷◌, some, none, arith, inl, inr, Bool-cases, ==_iff, eq_of_some,
  ◌==◌, if◌then◌else◌,
}
use closed_bsd.Btree.{Btree, Stored, replaced, added, later}
use closed_bsd.Devices.Device.{Device, State, disabled}
use closed_bsd.Devices.Lookup.{by_id}
use closed_bsd.Devices.Search.{find, ext_exist}
use closed_bsd.Devices.Table.{IsTable, table}
use closed_bsd.Devices.Update.{dhcp_device}
use closed_bsd.Fault.{ok}
use closed_bsd.Text.{codes}

unfoldable pub upsert : ℕ → Device → List (ℕ × Device) → List (ℕ × Device)
upsert k v [] = (k, v) ∷ []
upsert k v ((j, w) ∷ m) = if j == k then (k, v) ∷ m else (j, w) ∷ upsert k v m

pub upsert-Stored : (k : ℕ) (v : Device) (m : List (ℕ × Device)) → Stored k v m (upsert k v m)
unfolding upsert
upsert-Stored k v [] = added refl
upsert-Stored k v ((j, w) ∷ m) = elim (Bool-cases (j == k)) [
  | inl e ↦ rw (e, upsert) (replaced ((==_iff j k).0 e))
  | inr e ↦ rw (e, upsert) (later (λ same. let t = (==_iff j k).1 same in cc) (upsert-Stored k v m))
]

abbrev pub listed : Btree Device
listed = record {
  Db = List (ℕ × Device);
  empty = [];
  scan = λ m. m;
  put = λ m k v. some (upsert k v m);
  close = λ m. (m, true);
  scan-empty = refl;
  scan-put = λ m k v e. rw (← eq_of_some e) (upsert-Stored k v m);
  close-true = λ m e. refl;
}

abbrev pub outer : Device
outer = dhcp_device 0 (codes "fxp0")

abbrev pub inner : Device
inner = record {
  id = 1;
  device = codes "fxp1";
  ip = codes "10.0.0.1";
  netmask = codes "255.0.0.0";
  gateway = [];
  ext = 0;
  dhcp = disabled;
}

abbrev pub state : State listed
state = record {
  file = some ((0, outer) ∷ []);
  opens = true;
  conf = none;
  conf_opens = true;
  ran = [];
}

pub state-IsTable : IsTable (table listed state)
state-IsTable = record { keyed = (refl, tt); below = (omega arith, tt); distinct = (refl, tt) }

pub found_outer : by_id 0 (table listed state) ≡ some outer
unfolding find
found_outer = refl

pub ext_is_outer : ext_exist listed state ≡ ok (some 0)
unfolding ext_exist find
ext_is_outer = refl
