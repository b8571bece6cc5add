-- ===== src/Rules/Menu/Delete.antt =====
-- Deleting a line by the menu: what is left of the script.
use closed_bsd.Base.{
  ℕ, zero, suc, ◌+◌, ◌≤◌, ◌<◌, ◌≡◌, refl, ap, ◌∙◌, true, false, List, [], ◌∷◌, ◌++◌, map,
  append_assoc, some, arith, length, erase_idx, get_elem?, All,
}
use mathlib.Core.Path.{subst}
use native.Mathlib.Nat.{add-zero}
use closed_bsd.Fault.{ok}
use closed_bsd.Rules.Menu.Entries.{script, IsTitle, items, fill-fgets_all}
use closed_bsd.Rules.Menu.Kept.{kept-items, scanned-kept, IsBlank, Grew, write_items-Grew}
use closed_bsd.Rules.Menu.{
  Item, dropped, write_items, scanned, drop_rule, choose, delete_rule, table_size, fill,
}
use closed_bsd.Text.Cat.{join}
use closed_bsd.Text.Lines.{fgets_all}
use closed_bsd.Text.Prompt.{prompt, atoi, atoi-prompt}
use closed_bsd.Text.Token.{token}
use closed_bsd.Text.{Text, codes}
use closed_bsd.World.{World, File, rules, same, put, unlink}

get_elem?-items :
    (i k : ℕ) (ts : List Text)
    → k < length ts
    → (t : Text) × (get_elem? (items i ts) k
        ≡ some (record { prompt_text = prompt (i + k); title = some (token b'q' t) }))
get_elem?-items i k [] h = absurd (omega arith)
get_elem?-items i zero (t ∷ ts) h = (t, rw (add-zero i) refl)
get_elem?-items i (suc k) (t ∷ ts) h =
    let (u, e) = get_elem?-items (i + 1) k ts (omega arith) in
    let e' : i + 1 + k ≡ i + suc k = omega arith in (u, rw (← e') e)

-- The three commands that reload the filter.
abbrev pub reload : List Text
reload =
    codes "/sbin/ipfw -q flush"
    ∷ codes "/sbin/chmod 755 /etc/rules"
    ∷ codes "/bin/sh /etc/rules"
    ∷ []

-- What `delete_rule` promises: the script that is left, the files it does not touch, the commands.
pub record Deleted (left : Text) (w w' : World) : Type 0 where
  pub script_left : w'.content rules ≡ some left
  pub others : (f : File) → same rules f ≡ false → w'.content f ≡ w.content f
  pub opens_same : w'.opens ≡ w.opens
  pub ran_reload : w'.ran ≡ w.ran ++ reload

-- The file is removed and created anew.
abbrev emptied : World → World
emptied w = put (unlink w rules) rules []

abbrev reloaded : World → World
reloaded w = record w {
  ran =
      ((w.ran ++ codes "/sbin/ipfw -q flush" ∷ []) ++ codes "/sbin/chmod 755 /etc/rules" ∷ [])
      ++ codes "/bin/sh /etc/rules" ∷ [];
}

drop_rule_opened :
    (filled : List Item) (self : Item) (beyond : List Item) (w : World)
    → w.opens rules ≡ true
    → drop_rule filled self beyond w ≡ (
      reloaded (write_items (atoi self.prompt_text) (scanned filled beyond) (emptied w)),
      dropped,
    )
unfolding drop_rule
drop_rule_opened filled self beyond w o = rw (o, drop_rule) refl

Grew-Deleted : (t : Text) (w w' : World) → Grew t (emptied w) w' → Deleted t w (reloaded w')
Grew-Deleted t w w' g = record {
  script_left = g.grown [] refl;
  others = λ f e. g.others f e ∙ rw e refl;
  opens_same = g.opens_same;
  ran_reload = rw g.ran_same (simp append_assoc);
}

choose-some :
    (filled : List Item) (k : ℕ) (self : Item) (beyond : List Item) (w : World)
    → get_elem? filled k ≡ some self
    → choose filled (some k) beyond w ≡ drop_rule filled self beyond w
unfolding choose
choose-some [] k self beyond w e = cc
choose-some (x ∷ xs) k self beyond w e = rw (e, choose) refl

delete_rule_filled :
    (k : ℕ) (filled : List Item) (content : Text) (beyond : List Item) (w : World)
    → w.opens rules ≡ true
    → w.content rules ≡ some content
    → fill 0 (fgets_all content) ≡ ok filled
    → delete_rule (some k) beyond w ≡ ok (choose filled (some k) beyond w)
unfolding delete_rule
delete_rule_filled k filled content beyond w o c e =
    rw (o, delete_rule) (rw (c, delete_rule) (rw e refl))

-- The menu's choice of a line that is there, on a script that can be opened and holds at most 32
-- rule lines, each of one line that fits in the buffer and with a title that is not empty and
-- does not start with q, with no rule in the memory behind the table: the other lines stay in
-- order, each cut at the first q of its title, no other file changes, and the filter is reloaded
-- from the script.
pub delete_rule-Deleted :
    (k : ℕ) (ts : List Text) (beyond : List Item) (w : World)
    → w.opens rules ≡ true
    → w.content rules ≡ some (script ts)
    → All IsTitle ts
    → k < length ts
    → length ts ≤ table_size
    → All IsBlank beyond
    → (w' : World) × (delete_rule (some k) beyond w ≡ ok (w', dropped))
      × Deleted (script (map (token b'q') (erase_idx ts k))) w w'
delete_rule-Deleted k [] beyond w o c h l n b = absurd (omega arith)
delete_rule-Deleted k (t ∷ ts) beyond w o c h l n b =
    let (u, chosen) = get_elem?-items 0 k (t ∷ ts) l in
    let filled = items 0 (t ∷ ts) in
    let self : Item = record { prompt_text = prompt (0 + k); title = some (token b'q' u) } in
    let d : atoi (prompt (0 + k)) ≡ 0 + k + 1 = atoi-prompt (0 + k) (omega arith) in
    let w' = write_items (0 + k + 1) (scanned filled beyond) (emptied w) in
    (
      reloaded w',
      delete_rule_filled k filled (script (t ∷ ts)) beyond w o c (fill-fgets_all (t ∷ ts) h n)
          ∙ ap ok (
              choose-some filled k self beyond w chosen
              ∙ drop_rule_opened filled self beyond w o
              ∙ ap (λ m. (reloaded (write_items m (scanned filled beyond) (emptied w)), dropped))
                  d),
      Grew-Deleted (script (map (token b'q') (erase_idx (t ∷ ts) k))) w w' (
          subst (λ (s : Text). Grew s (emptied w) w')
            (ap join (
              scanned-kept (0 + k + 1) filled beyond b
              ∙ kept-items (0 + k + 1) 0 k (t ∷ ts) (omega arith) refl))
            (write_items-Grew (0 + k + 1) (scanned filled beyond) (emptied w))),
    )
