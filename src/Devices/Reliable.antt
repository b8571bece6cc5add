-- ===== src/Devices/Reliable.antt =====
-- The device code on a database whose writes never fail.
use closed_bsd.Base.{ℕ, ◌≡◌, refl, true, false, Bool, none, some, List, ◌++◌, arith}
use closed_bsd.Btree.{Btree, Stored, replaced, added, later, has_key}
use closed_bsd.Devices.Device.{Device, State}
use closed_bsd.Devices.Search.{find}
use closed_bsd.Devices.Table.{store_open-stored}
use closed_bsd.Devices.Update.{success, insert_device, or_create, configure}
use closed_bsd.Fault.{ok}

-- put and close succeed: the disk is not full.
pub record IsReliable (b : Btree Device) : Type 0 where
  pub puts : (db : b.Db) (k : ℕ) (v : Device) → (db' : b.Db) × (b.put db k v ≡ some db')
  pub closes : (db : b.Db) → (b.close db).1 ≡ true

-- A record that passes a test, stored under a new key among records that do not, is found.
pub find-Stored :
    (test : Device → Bool) (v : Device) {k : ℕ} {m m' : List (ℕ × Device)}
    → Stored k v m m'
    → has_key k m ≡ false
    → find test m ≡ none
    → test v ≡ true
    → find test m' ≡ some v
unfolding find
find-Stored test v (replaced e) h n y = ground arith
find-Stored test v (added e) h n y = ground arith
find-Stored test v (later ne st) h n y = ground (arith, find-Stored test v st)

module _ (b : Btree Device) where
  -- Where the database may be opened, the device is stored, and the file is there.
  pub insert_device-succeeds :
      (d : Device) (s : State b)
      → IsReliable b
      → s.opens ≡ true
      → (s' : State b) × (db : b.Db) × (insert_device b d s ≡ ok (s', success))
        × (s'.file ≡ some db)
  unfolding insert_device
  insert_device-succeeds d s r o =
      let (db', p) = r.puts (or_create b s.file) d.id d in
      (
        record s { file = some (b.close db').0; ran = s.ran ++ configure d },
        (b.close db').0,
        simp (o, store_open-stored b d (or_create b s.file) db' s p (r.closes db')),
        refl,
      )
