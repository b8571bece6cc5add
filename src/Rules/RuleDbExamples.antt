-- ===== src/Rules/RuleDbExamples.antt =====
-- A concrete run of `insert_rule` of closedbsd/config/rules.c, on a database that is a list.
use closed_bsd.Base.{
  ℕ, ◌≡◌, refl, true, some, List, [], ◌∷◌, inl, inr, Bool-cases, ==_iff, eq_of_some, ◌==◌,
  if◌then◌else◌, length, arith,
}
use closed_bsd.Btree.{Btree, Stored, replaced, added, later}
use closed_bsd.Fault.{ok}
use closed_bsd.Rules.RuleDb.{Rules, IsNumbered, rules_of, store_rule, store_rule-IsNumbered}
use closed_bsd.Rules.Ruleset.{Ruleset, zeroed}
use closed_bsd.Rules.Script.{success}

append_rule : ℕ → Ruleset → List (ℕ × Ruleset) → List (ℕ × Ruleset)
append_rule k v [] = (k, v) ∷ []
append_rule k v ((j, w) ∷ m) = if j == k then (k, v) ∷ m else (j, w) ∷ append_rule k v m

append_rule-Stored :
    (k : ℕ) (v : Ruleset) (m : List (ℕ × Ruleset)) → Stored k v m (append_rule k v m)
unfolding append_rule
append_rule-Stored k v [] = added refl
append_rule-Stored k v ((j, w) ∷ m) = elim (Bool-cases (j == k)) [
  | inl e ↦ rw (e, append_rule) (replaced ((==_iff j k).0 e))
  | inr e ↦
      rw (e, append_rule)
        (later (λ same. let t = (==_iff j k).1 same in cc) (append_rule-Stored k v m))
]

abbrev listed : Btree Ruleset
listed = record {
  Db = List (ℕ × Ruleset);
  empty = [];
  scan = λ m. m;
  put = λ m k v. some (append_rule k v m);
  close = λ m. (m, true);
  scan-empty = refl;
  scan-put = λ m k v e. rw (← eq_of_some e) (append_rule-Stored k v m);
  close-true = λ m e. refl;
}

abbrev one : List (ℕ × Ruleset)
one = (0, zeroed) ∷ []

abbrev two : List (ℕ × Ruleset)
two = (0, zeroed) ∷ (1, zeroed) ∷ []

abbrev state : Rules listed
state = record { file = some one; opens = true }

one-IsNumbered : IsNumbered listed one
one-IsNumbered = record { below = λ k y. ground arith; distinct = (refl, tt) }

puts_second : listed.put one 1 zeroed ≡ some two
unfolding append_rule
puts_second = refl

store_rule-IsNumbered_example :
    (s' : Rules listed) × (store_rule listed zeroed state ≡ ok (s', success))
    × Stored 1 zeroed one (rules_of listed s')
    × IsNumbered listed (rules_of listed s')
    × (length (rules_of listed s') ≡ 2)
store_rule-IsNumbered_example =
    store_rule-IsNumbered listed zeroed state one two refl refl puts_second refl one-IsNumbered
