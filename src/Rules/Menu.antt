-- ===== src/Rules/Menu.antt =====
-- The menu that deletes one line of /etc/rules: `delete_rule` fills the table `rlist` from the
-- file, and `drop_rule`, which the menu fires at the chosen entry, writes the file anew from it.
pub mod Entries
pub mod Kept
pub mod Delete
use closed_bsd.Base.{
  ℕ, suc, ◌+◌, ◌-◌, Bool, true, false, List, [], ◌∷◌, ◌++◌, Option, none, some, ltb, ◌==◌,
  if◌then◌else◌, length, take, get_elem?, replicate,
}
use closed_bsd.Fault.{Result, ok, fault, overflow, ◌>>=◌}
use closed_bsd.Text.Lines.{fgets_all}
use closed_bsd.Text.Prompt.{prompt, atoi}
use closed_bsd.Text.Token.{second_token}
use closed_bsd.Text.{Text, codes}
use closed_bsd.World.{World, rules, fopen_read, fopen_append, fprintf, unlink, system}

-- A `dialogMenuItem`: its prompt and title. `fire` is `drop_rule` in every entry that is filled.
pub record Item : Type 0 where
  pub prompt_text : Text
  pub title : Option Text

abbrev pub table_size : ℕ
table_size = 32

-- An entry that bzero(rlist, sizeof(rlist)) has cleared.
abbrev pub blank : Item
blank = record { prompt_text = []; title = none }

-- buf[strlen(buf) - 1] = '\0'
abbrev pub chop : Text → Text
chop [] = []
chop (c ∷ []) = []
chop (c ∷ d ∷ cs) = c ∷ chop (d ∷ cs)

-- rlist[i] for one line: the title is the second piece of the line between the letters q.
pub item_of : ℕ → Text → Item
item_of i buf = record { prompt_text = prompt i; title = second_token b'q' (chop buf) }

-- The loop over the lines. A line of one byte is passed over; the table has no entry 32.
pub fill : ℕ → List Text → Result (List Item)
unfolding item_of
fill i [] = ok []
fill i (buf ∷ bufs) = elim (ltb 1 (length buf)) [
  | true ↦ elim (ltb i table_size) [
    | true ↦ (fill (i + 1) bufs >>= λ rest. ok (item_of i buf ∷ rest))
    | false ↦ fault overflow
  ]
  | false ↦ fill i bufs
]

-- if (rlist[i].title) if (atoi(rlist[i].prompt) != d) fprintf(stream, "/sbin/ipfw -q%s\n", title)
pub write_item : ℕ → Item → World → World
write_item d item w = elim item.title [
  | none ↦ w
  | some t ↦
      if atoi item.prompt_text == d
      then w
      else fprintf w rules (codes "/sbin/ipfw -q" ++ (t ++ codes "\n"))
]

pub write_items : ℕ → List Item → World → World
unfolding write_item
write_items d [] w = w
write_items d (item ∷ items) w = write_items d items (write_item d item w)

pub data Ret : Type 0 where
  failure no_rules dropped cancelled : Ret

-- The loop of `drop_rule` runs over the indices 0 to 50. `filled` are the entries that hold a
-- rule, the table has 32, and `beyond` is the memory behind it, read as entries.
pub scanned : List Item → List Item → List Item
scanned filled beyond = filled ++ (replicate (table_size - length filled) blank ++ take 19 beyond)

-- drop_rule
pub drop_rule : List Item → Item → List Item → World → World × Ret
unfolding write_items scanned
drop_rule filled self beyond w = elim (fopen_append (unlink w rules) rules) [
  | none ↦ (unlink w rules, failure)
  | some w₁ ↦
      let w₂ = write_items (atoi self.prompt_text) (scanned filled beyond) w₁ in
      let w₃ = system w₂ (codes "/sbin/ipfw -q flush") in
      let w₄ = system w₃ (codes "/sbin/chmod 755 /etc/rules") in
      (system w₄ (codes "/bin/sh /etc/rules"), dropped)
]

-- dialog_menu fires the entry that the user chose, if the user chose one.
pub choose : List Item → Option ℕ → List Item → World → World × Ret
unfolding drop_rule
choose [] choice beyond w = (w, no_rules)
choose (item ∷ items) none beyond w = (w, cancelled)
choose (item ∷ items) (some k) beyond w = elim (get_elem? (item ∷ items) k) [
  | none ↦ (w, cancelled)
  | some self ↦ drop_rule (item ∷ items) self beyond w
]

-- delete_rule
unfoldable pub delete_rule : Option ℕ → List Item → World → Result (World × Ret)
unfolding fill choose
delete_rule choice beyond w = elim (fopen_read w rules) [
  | none ↦ ok (w, failure)
  | some content ↦ (fill 0 (fgets_all content) >>= λ items. ok (choose items choice beyond w))
]
