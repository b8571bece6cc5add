-- ===== src/Rules/RuleDb.antt =====
-- `insert_rule` and `next_rule` of closedbsd/config/rules.c, which keep rules as records of a
-- Berkeley DB file. (They open RULESCRIPT, not RULES.)
use closed_bsd.Base.{
  ℕ, ◌+◌, ◌<◌, ◌≡◌, refl, ap, Bool, true, false, ◌∙◌, inl, inr, List, [], ◌∷◌, Option, none, some,
  arith, if◌then◌else◌, length, Bool-cases,
}
use closed_bsd.Btree.{Btree, Stored, has_key}
use closed_bsd.Devices.Table.{Distinct, has_key-Stored, length-Stored, Distinct-Stored}
use closed_bsd.Fault.{Result, ok, fault, null, ◌>>=◌}
use closed_bsd.Rules.Ruleset.{Ruleset}
use closed_bsd.Rules.Script.{Ret, success, failure}

module _ (b : Btree Ruleset) where
  open b use {Db, empty, scan, put, close, scan-empty, scan-put, close-true}

  pub record Rules : Type 0 where
    pub file : Option Db
    pub opens : Bool

  -- dbopen with O_CREAT, or null.
  abbrev pub dbopen_rules : Rules → Result Db
  dbopen_rules s = if s.opens then ok (elim s.file [ none ↦ empty | some db ↦ db ]) else fault null

  -- while (db->seq(…) == 0) i += 1;
  unfoldable pub count_rules : List (ℕ × Ruleset) → ℕ → ℕ
  count_rules [] i = i
  count_rules (_ ∷ m) i = count_rules m (i + 1)

  unfoldable pub next_rule : Rules → Result ℕ
  unfolding count_rules
  next_rule s = dbopen_rules s >>= λ db. ok (count_rules (scan db) 0)

  -- From `put` on. The result of close is not read.
  unfoldable pub store_under : ℕ → Ruleset → Db → Rules → Rules × Ret
  store_under id rule db s = elim (put db id rule) [
    | none ↦ (record s { file = some (close db).0 }, failure)
    | some db' ↦ (record s { file = some (close db').0 }, success)
  ]

  -- `insert_rule`
  unfoldable pub store_rule : Ruleset → Rules → Result (Rules × Ret)
  unfolding next_rule store_under
  store_rule rule s = next_rule s >>= λ id. dbopen_rules s >>= λ db. ok (store_under id rule db s)

  abbrev pub rules_of : Rules → List (ℕ × Ruleset)
  rules_of s = elim s.file [ none ↦ [] | some db ↦ scan db ]

  -- The keys are distinct and lie below their number.
  pub record IsNumbered (m : List (ℕ × Ruleset)) : Type 0 where
    pub below : (k : ℕ) → has_key k m ≡ true → k < length m
    pub distinct : Distinct m

  count_rules-length : (m : List (ℕ × Ruleset)) (i : ℕ) → count_rules m i ≡ i + length m
  unfolding count_rules
  count_rules-length [] i = omega arith
  count_rules-length (x ∷ m) i = omega (arith, count_rules-length m (i + 1))

  count_rules-zero : (m : List (ℕ × Ruleset)) → count_rules m 0 ≡ length m
  count_rules-zero m = omega (arith, count_rules-length m 0)

  store_under-stored :
      (id : ℕ) (rule : Ruleset) (db db' : b.Db) (s : Rules)
      → put db id rule ≡ some db'
      → store_under id rule db s ≡ (record s { file = some (close db').0 }, success)
  unfolding store_under
  store_under-stored id rule db db' s p = rw (p, store_under) refl

  free : (m : List (ℕ × Ruleset)) → IsNumbered m → has_key (length m) m ≡ false
  free m h = elim (Bool-cases (has_key (length m) m)) [
    | inl y ↦ absurd (omega (arith, h.below (length m) y))
    | inr n ↦ n
  ]

  Stored-IsNumbered :
      (rule : Ruleset) {m m' : List (ℕ × Ruleset)}
      → Stored (length m) rule m m'
      → IsNumbered m
      → IsNumbered m' × (length m' ≡ length m + 1)
  Stored-IsNumbered rule {m} {m'} st h =
      let n = free m h in
      let grown : length m' ≡ length m + 1 = length-Stored st ∙ rw n refl in
      (
        record {
          below = λ k y. ground (arith, has_key-Stored k st, h.below k, grown);
          distinct = Distinct-Stored st h.distinct;
        },
        grown,
      )

  -- Where the file is there and may be opened, put takes the record, close succeeds and the keys
  -- are distinct and below their number, insert_rule stores the rule under that number, which was
  -- free: there is one record more, and the keys stay distinct and below their number.
  pub store_rule-IsNumbered :
      (rule : Ruleset) (s : Rules) (db db' : b.Db)
      → s.opens ≡ true
      → s.file ≡ some db
      → put db (length (scan db)) rule ≡ some db'
      → (close db').1 ≡ true
      → IsNumbered (scan db)
      → (s' : Rules) × (store_rule rule s ≡ ok (s', success))
        × Stored (length (rules_of s)) rule (rules_of s) (rules_of s')
        × IsNumbered (rules_of s')
        × (length (rules_of s') ≡ length (rules_of s) + 1)
  unfolding store_rule
  store_rule-IsNumbered rule s db db' o f p c h =
      let st = scan-put db (length (scan db)) rule p in
      let (numbered, grown) = Stored-IsNumbered rule st h in
      (
        record s { file = some (close db').0 },
        rw (o, f, count_rules-zero (scan db))
            (ap ok (store_under-stored _ rule db db' (record { file = some db; opens = true }) p)),
        rw (f, close-true db' c) st,
        rw (close-true db' c) numbered,
        rw (f, close-true db' c) grown,
      )
