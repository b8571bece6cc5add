-- ===== src/Rules/Menu/Kept.antt =====
-- The lines that `drop_rule` of closedbsd/config/rules.c writes back.
use closed_bsd.Base.{
  ℕ, zero, suc, ◌+◌, ◌-◌, ◌≤◌, ◌<◌, ◌≡◌, refl, sym, ap, ◌∙◌, false, List, [], ◌∷◌, ◌++◌, map,
  append-nil, append_assoc, none, some, arith, ◌==◌, if◌then◌else◌, length, erase_idx, All,
  All-append, replicate, take, Bool-cases, Option-cases, ◌≢◌, inl, inr,
}
use closed_bsd.Rules.Menu.Entries.{rule_line, items}
use closed_bsd.Rules.Menu.{Item, blank, write_item, write_items, scanned, table_size}
use closed_bsd.Text.Cat.{join, join-append}
use closed_bsd.Text.Prompt.{atoi, atoi-prompt}
use closed_bsd.Text.Token.{token}
use closed_bsd.Text.{Text}
use closed_bsd.World.{World, File, rules, same}

-- The lines that `drop_rule` writes for these entries.
abbrev pub kept_item : ℕ → Item → List Text
kept_item d item = elim item.title [
  | none ↦ []
  | some t ↦ if atoi item.prompt_text == d then [] else rule_line t ∷ []
]

abbrev pub kept : ℕ → List Item → List Text
kept d [] = []
kept d (item ∷ its) = kept_item d item ++ kept d its

kept-append : (d : ℕ) (xs ys : List Item) → kept d (xs ++ ys) ≡ kept d xs ++ kept d ys
kept-append d [] ys = refl
kept-append d (x ∷ xs) ys =
    ap (λ ks. kept_item d x ++ ks) (kept-append d xs ys)
    ∙ sym (append_assoc (kept_item d x) (kept d xs) (kept d ys))

-- An entry that holds no rule.
pub record IsBlank (item : Item) : Type 0 where
  pub no_title : item.title ≡ none

kept-IsBlank : (d : ℕ) (its : List Item) → All IsBlank its → kept d its ≡ []
kept-IsBlank d [] h = refl
kept-IsBlank d (x ∷ xs) h = rw (h.0.no_title, kept-IsBlank d xs h.1) refl

replicate-IsBlank : (n : ℕ) → All IsBlank (replicate n blank)
replicate-IsBlank zero = tt
replicate-IsBlank (suc n) = (record { no_title = refl }, replicate-IsBlank n)

take-All : (n : ℕ) (its : List Item) → All IsBlank its → All IsBlank (take n its)
take-All zero its h = tt
take-All (suc n) [] h = tt
take-All (suc n) (x ∷ xs) h = (h.0, take-All n xs h.1)

-- The script grew by `t`, and nothing else changed.
pub record Grew (t : Text) (w w' : World) : Type 0 where
  pub grown : (c : Text) → w.content rules ≡ some c → w'.content rules ≡ some (c ++ t)
  pub others : (f : File) → same rules f ≡ false → w'.content f ≡ w.content f
  pub opens_same : w'.opens ≡ w.opens
  pub ran_same : w'.ran ≡ w.ran

write_item-none :
    (d : ℕ) (item : Item) (w : World)
    → item.title ≡ none
    → Grew (join (kept_item d item)) w (write_item d item w)
unfolding write_item
write_item-none d item w e = rw e (record {
  grown = λ c h. rw (append-nil c) h;
  others = λ f h. refl;
  opens_same = refl;
  ran_same = refl;
})

write_item-some :
    (d : ℕ) (item : Item) (t : Text) (w : World)
    → item.title ≡ some t
    → Grew (join (kept_item d item)) w (write_item d item w)
unfolding write_item
write_item-some d item t w e = elim (Bool-cases (atoi item.prompt_text == d)) [
  | inl same_number ↦
      rw (e, same_number)
        (record {
          grown = λ c h. rw (append-nil c) h;
          others = λ f h. refl;
          opens_same = refl;
          ran_same = refl;
        })
  | inr other_number ↦
      rw (e, other_number)
        (record {
          grown = λ c h. rw h (ap (λ (l : Text). some (c ++ l)) (sym (append-nil (rule_line t))));
          others = λ f h. rw h refl;
          opens_same = refl;
          ran_same = refl;
        })
]

write_item-Grew :
    (d : ℕ) (item : Item) (w : World) → Grew (join (kept_item d item)) w (write_item d item w)
write_item-Grew d item w = elim (Option-cases item.title) [
  | inl e ↦ write_item-none d item w e
  | inr (t, e) ↦ write_item-some d item t w e
]

Grew-trans : {s t : Text} {u v w : World} → Grew s u v → Grew t v w → Grew (s ++ t) u w
Grew-trans {s} {t} g h = record {
  grown = λ c e. rw (← append_assoc c s t) (h.grown (c ++ s) (g.grown c e));
  others = λ f e. h.others f e ∙ g.others f e;
  opens_same = h.opens_same ∙ g.opens_same;
  ran_same = h.ran_same ∙ g.ran_same;
}

pub write_items-Grew :
    (d : ℕ) (its : List Item) (w : World) → Grew (join (kept d its)) w (write_items d its w)
unfolding write_items
write_items-Grew d [] w = record {
  grown = λ c e. rw (append-nil c) e;
  others = λ f e. refl;
  opens_same = refl;
  ran_same = refl;
}
write_items-Grew d (x ∷ xs) w =
    rw (join-append (kept_item d x) (kept d xs))
      (Grew-trans (write_item-Grew d x w) (write_items-Grew d xs (write_item d x w)))

kept-other :
    (d i : ℕ) (t : Text) (ts : List Text)
    → i < table_size
    → d ≢ i + 1
    → kept d (items i (t ∷ ts)) ≡ rule_line (token b'q' t) ∷ kept d (items (i + 1) ts)
kept-other d i t ts n h = ground (arith, atoi-prompt i n)

kept-same :
    (d i : ℕ) (t : Text) (ts : List Text)
    → i < table_size
    → d ≡ i + 1
    → kept d (items i (t ∷ ts)) ≡ kept d (items (i + 1) ts)
kept-same d i t ts n h = ground (arith, atoi-prompt i n)

-- All lines behind the chosen one stay, up to each title's first q.
kept-behind :
    (d i : ℕ) (ts : List Text)
    → i + length ts ≤ table_size
    → d ≤ i
    → kept d (items i ts) ≡ map rule_line (map (token b'q') ts)
kept-behind d i [] n h = refl
kept-behind d i (t ∷ ts) n h =
    kept-other d i t ts (omega arith) (omega arith)
    ∙ ap (◌∷◌ (rule_line (token b'q' t))) (kept-behind d (i + 1) ts (omega arith) (omega arith))

-- Without the entry that was chosen.
pub kept-items :
    (d i k : ℕ) (ts : List Text)
    → i + length ts ≤ table_size
    → d ≡ i + k + 1
    → kept d (items i ts) ≡ map rule_line (map (token b'q') (erase_idx ts k))
kept-items d i k [] n e = refl
kept-items d i zero (t ∷ ts) n e =
    kept-same d i t ts (omega arith) (omega arith)
    ∙ kept-behind d (i + 1) ts (omega arith) (omega arith)
kept-items d i (suc k) (t ∷ ts) n e =
    kept-other d i t ts (omega arith) (omega arith)
    ∙ ap (◌∷◌ (rule_line (token b'q' t))) (kept-items d (i + 1) k ts (omega arith) (omega arith))

pub scanned-kept :
    (d : ℕ) (filled beyond : List Item)
    → All IsBlank beyond
    → kept d (scanned filled beyond) ≡ kept d filled
unfolding scanned
scanned-kept d filled beyond h =
    let n = table_size - length filled in
    kept-append d filled (replicate n blank ++ take 19 beyond)
    ∙ rw
        (kept-IsBlank d (replicate n blank ++ take 19 beyond) (
          All-append IsBlank (replicate n blank) (take 19 beyond) (replicate-IsBlank n)
            (take-All 19 beyond h)))
        (append-nil (kept d filled))
