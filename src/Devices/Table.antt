-- ===== src/Devices/Table.antt =====
-- The device table stays well formed: ids are the keys, are distinct, and lie below the count, so
-- that the next id is free.
use closed_bsd.Base.{
  ℕ, ◌+◌, ◌≤◌, ◌<◌, ◌≡◌, refl, sym, ap, ◌∙◌, inl, inr, true, false, ◌||◌, List, [], ◌∷◌, ◌++◌, none,
  some, arith, ◌==◌, length, All, Bool-cases, Option-cases, if◌then◌else◌,
}
use closed_bsd.Btree.{Btree, Stored, replaced, added, later, has_key}
use closed_bsd.Devices.Device.{Device, State}
use closed_bsd.Devices.Search.{next_device_id, count}
use closed_bsd.Devices.Update.{success, insert_device, store_open, or_create, configure}
use closed_bsd.Fault.{ok, ok-injective}

module _ {ℓ} {V : Type ℓ} where
  abbrev pub Distinct : List (ℕ × V) → Type 0
  Distinct [] = Unit
  Distinct ((k, v) ∷ m) = (has_key k m ≡ false) × Distinct m

module _ {ℓ} {V : Type ℓ} {k : ℕ} {v : V} where
  pub has_key-Stored :
      (j : ℕ) {m m' : List (ℕ × V)} → Stored k v m m' → has_key j m' ≡ (k == j || has_key j m)
  has_key-Stored j (replaced e) = ground arith
  has_key-Stored j (added e) = refl
  has_key-Stored j (later ne st) = ground (arith, has_key-Stored j st)

  pub length-Stored :
      {m m' : List (ℕ × V)}
      → Stored k v m m'
      → length m' ≡ (if has_key k m then length m else length m + 1)
  length-Stored (replaced e) = ground arith
  length-Stored (added e) = rw e (omega arith)
  length-Stored (later ne st) = ground (arith, length-Stored st)

  pub All-Stored :
      (P : ℕ × V → Type 0) {m m' : List (ℕ × V)} → Stored k v m m' → All P m → P (k, v) → All P m'
  All-Stored P (replaced e) a p = (p, a.1)
  All-Stored P (added e) a p = (p, a)
  All-Stored P (later ne st) a p = (a.0, All-Stored P st a.1 p)

  pub Distinct-Stored : {m m' : List (ℕ × V)} → Stored k v m m' → Distinct m → Distinct m'
  Distinct-Stored (replaced e) d = (rw (← e) d.0, d.1)
  Distinct-Stored (added e) d = (e, d)
  Distinct-Stored (later {j} ne st) d =
      (ground (arith, has_key-Stored j st), Distinct-Stored st d.1)

pub record IsTable (m : List (ℕ × Device)) : Type 0 where
  pub keyed : All (λ e. e.1.id ≡ e.0) m
  pub below : All (λ e. e.0 < length m) m
  pub distinct : Distinct m

below_mono :
    (n n' : ℕ) (m : List (ℕ × Device)) → n ≤ n' → All (λ e. e.0 < n) m → All (λ e. e.0 < n') m
below_mono n n' [] h a = tt
below_mono n n' ((k, d) ∷ m) h a = (omega arith, below_mono n n' m h a.1)

pub has_key-below :
    (k n : ℕ) (m : List (ℕ × Device)) → All (λ e. e.0 < n) m → has_key k m ≡ true → k < n
has_key-below k n [] a h = cc
has_key-below k n ((j, d) ∷ m) a h = ground (arith, has_key-below k n m)

Stored-IsTable :
    (d : Device) {m m' : List (ℕ × Device)}
    → Stored d.id d m m'
    → IsTable m
    → d.id ≤ length m
    → IsTable m'
Stored-IsTable d {m} {m'} st t h =
    let grown : length m ≤ length m' = ground (arith, length-Stored st) in
    let fits : d.id < length m' =
      ground (arith, length-Stored st, has_key-below d.id (length m) m t.below) in
    record {
      keyed = All-Stored (λ e. e.1.id ≡ e.0) st t.keyed refl;
      below =
          All-Stored (λ e. e.0 < length m') st (below_mono (length m) (length m') m grown t.below)
            fits;
      distinct = Distinct-Stored st t.distinct;
    }

module _ (b : Btree Device) where
  open b use {scan, empty, put, close, scan-empty, scan-put, close-true}

  -- The records of the file; a missing file has none.
  abbrev pub table : State b → List (ℕ × Device)
  table s = elim s.file [ none ↦ [] | some db ↦ scan db ]

  -- What a successful insert_device did.
  pub record Inserted (d : Device) (s s' : State b) : Type 0 where
    pub stored : Stored d.id d (table s) (table s')
    pub ran_configure : s'.ran ≡ s.ran ++ configure d
    pub conf_same : s'.conf ≡ s.conf
    pub opens_same : s'.opens ≡ true

  pub store_open-stored :
      (d : Device) (db db' : b.Db) (s : State b)
      → put db d.id d ≡ some db'
      → (close db').1 ≡ true
      → store_open b d db s
        ≡ (record s { file = some (close db').0; ran = s.ran ++ configure d }, success)
  unfolding store_open
  store_open-stored d db db' s p c = rw (p, store_open) (rw (c, store_open) refl)

  store_open-success :
      (d : Device) (db : b.Db) (s : State b) {s' : State b}
      → store_open b d db s ≡ (s', success)
      → (db' : b.Db) × (put db d.id d ≡ some db') × ((close db').1 ≡ true)
  unfolding store_open
  store_open-success d db s e = elim (Option-cases (put db d.id d)) [
    | inl p ↦ let e' = rw (p, store_open) at e in cc
    | inr (db', p) ↦ elim (Bool-cases (close db').1) [
      | inl c ↦ (db', p, c)
      | inr c ↦ let e' = rw (p, store_open) at e in let e'' = rw (c, store_open) at e' in cc
    ]
  ]

  store_open-Inserted :
      (d : Device) (db : b.Db) (s : State b) {s' : State b}
      → scan db ≡ table s
      → s.opens ≡ true
      → store_open b d db s ≡ (s', success)
      → Inserted d s s'
  store_open-Inserted d db s {s'} t o e =
      let (db', p, c) = store_open-success d db s e in
      let same : record s { file = some (close db').0; ran = s.ran ++ configure d } ≡ s' =
        ap (λ r. r.0) (sym (store_open-stored d db db' s p c) ∙ e) in
      rw (← same) (record {
        stored = rw (close-true db' c, ← t) (scan-put db d.id d p);
        ran_configure = refl;
        conf_same = refl;
        opens_same = o;
      })

  scan-or_create : (s : State b) → scan (or_create b s.file) ≡ table s
  scan-or_create s = ground (arith, scan-empty)

  -- A put that succeeds stores the record under its id and runs the commands of the device.
  pub insert_device-Inserted :
      (d : Device) (s : State b) {s' : State b}
      → insert_device b d s ≡ ok (s', success)
      → Inserted d s s'
  unfolding insert_device
  insert_device-Inserted d s e = elim (Bool-cases s.opens) [
    | inl o ↦
        store_open-Inserted d (or_create b s.file) s (scan-or_create s) o
          (ok-injective (simp o at e))
    | inr o ↦ let e' = simp o at e in cc
  ]

  count-length : (m : List (ℕ × Device)) (i : ℕ) → count b m i ≡ i + length m
  unfolding count
  count-length [] i = omega arith
  count-length (x ∷ m) i = omega (arith, count-length m (i + 1))

  -- Where the file is there and may be opened, the next id is the number of records.
  pub next_device_id-length :
      (s : State b) {db : b.Db}
      → s.file ≡ some db
      → s.opens ≡ true
      → next_device_id b s ≡ ok (length (table s))
  unfolding next_device_id
  next_device_id-length s {db} f o =
      rw (f, next_device_id) (rw (o, next_device_id) (rw count-length (ap ok (omega arith))))

  -- A device that is stored under an id up to the number of records (the next id, or that of a
  -- record that is overwritten) leaves a well formed table, with one record more exactly if the
  -- id was free.
  pub insert_device-IsTable :
      (d : Device) (s : State b) {s' : State b}
      → insert_device b d s ≡ ok (s', success)
      → IsTable (table s)
      → d.id ≤ length (table s)
      → IsTable (table s')
        × (length (table s')
            ≡ (if has_key d.id (table s) then length (table s) else length (table s) + 1))
  insert_device-IsTable d s e t h =
      let i = insert_device-Inserted d s e in
      (Stored-IsTable d i.stored t h, length-Stored i.stored)
