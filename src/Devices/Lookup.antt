-- ===== src/Devices/Lookup.antt =====
-- Looking devices up after the table has changed.
use closed_bsd.Base.{
  ℕ, ◌≡◌, refl, sym, ap, ◌∙◌, ◌≢◌, Bool, true, false, List, [], ◌∷◌, Option, none, some, arith, inl,
  inr, ◌==◌, All, Bool-cases, Option-cases, ==_iff, eq_of_some, if◌then◌else◌,
}
use closed_bsd.Btree.{Btree, Stored, replaced, added, later, has_key}
use closed_bsd.Devices.Device.{Device, State}
use closed_bsd.Devices.Search.{find, field_of, is_ext, records, dev_ext, ext_exist}
use closed_bsd.Devices.Table.{IsTable, Distinct, table, insert_device-Inserted}
use closed_bsd.Devices.Update.{Ret, success, failure, insert_device, clear_found, unset_ext}
use closed_bsd.Fault.{Result, ok, ok-injective, ◌>>=◌}

-- The record with an id.
abbrev pub by_id : ℕ → List (ℕ × Device) → Option Device
by_id j = find (λ d. d.id == j)

abbrev Keyed : List (ℕ × Device) → Type 0
Keyed = All (λ e. e.1.id ≡ e.0)

by_id-has_key : (j : ℕ) (m : List (ℕ × Device)) → Keyed m → has_key j m ≡ false → by_id j m ≡ none
unfolding find
by_id-has_key j [] a h = refl
by_id-has_key j ((k, d) ∷ m) a h = ground (arith, by_id-has_key j m)

pub by_id-Stored :
    (j : ℕ) (d : Device) {m m' : List (ℕ × Device)}
    → Stored d.id d m m'
    → Keyed m
    → by_id j m' ≡ (if d.id == j then some d else by_id j m)
unfolding find
by_id-Stored j d (replaced e) a = ground arith
by_id-Stored j d (added e) a = refl
by_id-Stored j d (later ne st) a = ground (arith, by_id-Stored j d st)

find-none :
    (test : Device → Bool) (m : List (ℕ × Device))
    → All (λ e. test e.1 ≡ false) m
    → find test m ≡ none
unfolding find
find-none test [] a = refl
find-none test ((k, d) ∷ m) a = rw (a.0, find) (find-none test m a.1)

-- What a loop finds passes its test, and is the record of its id.
find-by_id :
    (test : Device → Bool) (m : List (ℕ × Device)) {d : Device}
    → Keyed m
    → Distinct m
    → find test m ≡ some d
    → (test d ≡ true) × (by_id d.id m ≡ some d) × (has_key d.id m ≡ true)
unfolding find
find-by_id test [] a u e = cc
find-by_id test ((k, x) ∷ m) {d} a u e = elim (Bool-cases (test x)) [
  | inl y ↦
      let same : x ≡ d = eq_of_some (rw (y, find) at e) in
      rw (← same) (y, ground arith, ground arith)
  | inr n ↦
      let (p, q, r) = find-by_id test m {d = d} a.1 u.1 (rw (n, find) at e) in
      (p, ground arith, ground arith)
]

abbrev pub cleared : Device → Device
cleared d = record d { ext = 0 }

-- No record but those with this id is external.
abbrev pub OnlyExt : ℕ → List (ℕ × Device) → Type 0
OnlyExt i = All (λ e. e.1.id ≢ i → is_ext e.1 ≡ false)

no_ext-free :
    (i : ℕ) (m : List (ℕ × Device))
    → Keyed m
    → has_key i m ≡ false
    → OnlyExt i m
    → All (λ e. is_ext e.1 ≡ false) m
no_ext-free i [] a h o = tt
no_ext-free i ((k, d) ∷ m) a h o = (o.0 (ground arith), no_ext-free i m a.1 (ground arith) o.1)

no_ext-Stored :
    (d : Device) {m m' : List (ℕ × Device)}
    → Stored d.id d m m'
    → Keyed m
    → Distinct m
    → has_key d.id m ≡ true
    → is_ext d ≡ false
    → OnlyExt d.id m
    → All (λ e. is_ext e.1 ≡ false) m'
no_ext-Stored d (replaced e) a u h x o = (x, no_ext-free d.id _ a.1 (rw e at u.0) o.1)
no_ext-Stored d (added e) a u h x o = cc
no_ext-Stored d (later ne st) a u h x o =
    (o.0 (λ e. ne (sym a.0 ∙ e)), no_ext-Stored d st a.1 u.1 (ground arith) x o.1)

module _ (b : Btree Device) where
  pub records-table :
      (s : State b) {db : b.Db} → s.file ≡ some db → s.opens ≡ true → records b s ≡ ok (table b s)
  unfolding records
  records-table s f o = rw (f, records) (rw (o, records) refl)

  pub ext_exist-find :
      (s : State b) {db : b.Db}
      → s.file ≡ some db
      → s.opens ≡ true
      → ext_exist b s ≡ ok (field_of (λ d. d.id) (find is_ext (table b s)))
  unfolding ext_exist
  ext_exist-find s f o = rw (f, ext_exist) (rw (o, ext_exist) refl)

  pub dev_ext-find :
      (s : State b) {db : b.Db}
      → s.file ≡ some db
      → s.opens ≡ true
      → dev_ext b s ≡ ok (field_of (λ d. d.device) (find is_ext (table b s)))
  unfolding dev_ext
  dev_ext-find s f o = rw (f, dev_ext) (rw (o, dev_ext) refl)

  -- Where the file is there and may be opened, ext_exist and dev_ext speak of the same record: an
  -- id that ext_exist returns is that of an external record, whose name dev_ext returns.
  pub ext_exist-dev_ext :
      (s : State b) {db : b.Db} {i : ℕ}
      → s.file ≡ some db
      → s.opens ≡ true
      → IsTable (table b s)
      → ext_exist b s ≡ ok (some i)
      → (d : Device) × (by_id i (table b s) ≡ some d)
        × (d.ext ≡ 1)
        × (dev_ext b s ≡ ok (some d.device))
  ext_exist-dev_ext s {i = i} f o t e = elim (Option-cases (find is_ext (table b s))) [
    | inl n ↦ let e' = sym (ext_exist-find s f o) ∙ e in let e'' = rw n at e' in cc
    | inr (d, y) ↦
        let (x, same, _) = find-by_id is_ext (table b s) t.keyed t.distinct y in
        let e' = sym (ext_exist-find s f o) ∙ e in
        let id : d.id ≡ i = eq_of_some (ok-injective (rw y at e')) in
        (d, rw (← id) same, (==_iff d.ext 1).0 x, rw (dev_ext-find s f o, y) refl)
  ]

  clear_found-stored :
      (d : Device) (s : State b) {s' : State b} {r : Ret}
      → insert_device b (cleared d) s ≡ ok (s', r)
      → clear_found b (some d) s ≡ ok (s', success)
  unfolding clear_found
  clear_found-stored d s {r = r} e =
      ap (λ (m : Result (State b × Ret)). m >>= λ (x : State b × Ret). ok (x.0, success)) e

  unset_ext-found :
      (i : ℕ) (s : State b) {db : b.Db}
      → s.file ≡ some db
      → s.opens ≡ true
      → unset_ext b i s ≡ clear_found b (by_id i (table b s)) s
  unfolding unset_ext
  unset_ext-found i s f o = rw (records-table s f o) refl

  -- Where no record has the id, unset_ext fails and changes nothing.
  pub unset_ext-missing :
      (i : ℕ) (s : State b) {db : b.Db}
      → s.file ≡ some db
      → s.opens ≡ true
      → by_id i (table b s) ≡ none
      → unset_ext b i s ≡ ok (s, failure)
  unfolding clear_found
  unset_ext-missing i s f o n = unset_ext-found i s f o ∙ rw n refl

  -- Where the record with this id is found and is stored without its mark, unset_ext succeeds, the
  -- record is the old one with ext 0, every other id has the record it had, and no device is
  -- external any more if no other one was.
  pub unset_ext-cleared :
      (i : ℕ) (s : State b) (d : Device) {db : b.Db} {s' : State b}
      → s.file ≡ some db
      → s.opens ≡ true
      → IsTable (table b s)
      → by_id i (table b s) ≡ some d
      → insert_device b (cleared d) s ≡ ok (s', success)
      → (unset_ext b i s ≡ ok (s', success))
        × ((j : ℕ)
            → by_id j (table b s') ≡ (if i == j then some (cleared d) else by_id j (table b s)))
        × (OnlyExt i (table b s) → find is_ext (table b s') ≡ none)
  unset_ext-cleared i s d f o t y e =
      let stored = (insert_device-Inserted b (cleared d) s e).stored in
      let (same, _, present) = find-by_id (λ x. x.id == i) (table b s) t.keyed t.distinct y in
      let id : d.id ≡ i = (==_iff d.id i).0 same in
      (
        unset_ext-found i s f o ∙ rw y (clear_found-stored d s e),
        (λ j. by_id-Stored j (cleared d) stored t.keyed ∙ rw id refl),
        (λ only.
            find-none is_ext _
              (no_ext-Stored (cleared d) stored t.keyed t.distinct present refl (rw id only))),
      )
