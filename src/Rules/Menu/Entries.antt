-- ===== src/Rules/Menu/Entries.antt =====
-- The table that the menu shows for a script of rule lines.
use closed_bsd.Base.{
  ℕ, ◌+◌, ◌≤◌, ◌<◌, ◌≡◌, refl, sym, ap, ◌∙◌, false, List, [], ◌∷◌, ◌++◌, map, append_assoc, some,
  arith, ◌==◌, length, All,
}
use closed_bsd.Fault.{ok, ◌>>=◌}
use closed_bsd.Rules.Menu.{Item, chop, item_of, fill, table_size}
use closed_bsd.Text.Cat.{join}
use closed_bsd.Text.Lines.{fgets_all, fgets_all-line, chunks}
use closed_bsd.Text.Prompt.{prompt}
use closed_bsd.Text.Token.{token, second_token, second_token-append}
use closed_bsd.Text.{Text, codes, contains}

-- One line of the script, from what stands behind "/sbin/ipfw -q".
abbrev pub rule_line : Text → Text
rule_line t = codes "/sbin/ipfw -q" ++ (t ++ codes "\n")

abbrev pub script : List Text → Text
script ts = join (map rule_line ts)

-- What stands behind "/sbin/ipfw -q" in a line that fits in fgets's buffer.
pub record IsTitle (t : Text) : Type 0 where
  pub first : ℕ
  pub others : Text
  pub splits : t ≡ first ∷ others
  pub first_not_q : (first == b'q') ≡ false
  pub no_newline : contains b'\n' t ≡ false
  pub short : length t ≤ 241

-- The table's entries for these titles, from index `i`: each title up to its first q.
abbrev pub items : ℕ → List Text → List Item
items i [] = []
items i (t ∷ ts) = record { prompt_text = prompt i; title = some (token b'q' t) } ∷ items (i + 1) ts

pub chop-append : (s : Text) (c : ℕ) → chop (s ++ c ∷ []) ≡ s
chop-append [] c = refl
chop-append (d ∷ []) c = refl
chop-append (d ∷ e ∷ s) c = ap (◌∷◌ d) (chop-append (e ∷ s) c)

-- "/sbin/ipfw -q" and the title, as the menu cuts the line.
abbrev cut_line : Text → Text
cut_line t = codes "/sbin/ipfw -q" ++ t

rule_line-cut : (t : Text) → rule_line t ≡ cut_line t ++ codes "\n"
rule_line-cut t = sym (append_assoc (codes "/sbin/ipfw -q") t (codes "\n"))

chop-rule_line : (t : Text) → chop (rule_line t) ≡ cut_line t
chop-rule_line t = ap chop (rule_line-cut t) ∙ chop-append (cut_line t) b'\n'

title-rule_line :
    (t : Text) → IsTitle t → second_token b'q' (chop (rule_line t)) ≡ some (token b'q' t)
title-rule_line t h =
    ap (second_token b'q') (chop-rule_line t)
    ∙ rw h.splits (
        second_token-append b'q' b'/' h.first (codes "sbin/ipfw -") h.others
          (unfold contains in refl) h.first_not_q)

fgets_all-rule_line :
    (t rest : Text) → IsTitle t → fgets_all (rule_line t ++ rest) ≡ rule_line t ∷ fgets_all rest
fgets_all-rule_line t rest h =
    ap fgets_all shape
    ∙ fgets_all-line (cut_line t) rest (unfold contains in h.no_newline) (omega (arith, h.short))
    ∙ ap (λ (l : Text). l ∷ fgets_all rest) (sym (rule_line-cut t))
  where
    shape : rule_line t ++ rest ≡ cut_line t ++ (b'\n' ∷ rest)
    shape = simp append_assoc

pub fgets_all-script : (ts : List Text) → All IsTitle ts → fgets_all (script ts) ≡ map rule_line ts
unfolding chunks
fgets_all-script [] h = refl
fgets_all-script (t ∷ ts) h =
    fgets_all-rule_line t (script ts) h.0 ∙ ap (◌∷◌ (rule_line t)) (fgets_all-script ts h.1)

fill_step :
    (i : ℕ) (buf : Text) (bufs : List Text)
    → 1 < length buf
    → i < table_size
    → fill i (buf ∷ bufs) ≡ (fill (i + 1) bufs >>= λ rest. ok (item_of i buf ∷ rest))
unfolding fill
fill_step i buf bufs l n = ground arith

fill-script :
    (i : ℕ) (ts : List Text)
    → All IsTitle ts
    → i + length ts ≤ table_size
    → fill i (map rule_line ts) ≡ ok (items i ts)
fill-script i [] h n = unfold fill in refl
fill-script i (t ∷ ts) h n =
    fill_step i (rule_line t) (map rule_line ts) (omega arith) (omega arith)
    ∙ rw (fill-script (i + 1) ts h.1 (omega arith))
        (unfold item_of in rw (title-rule_line t h.0) refl)

-- The menu's table for a script.
pub fill-fgets_all :
    (ts : List Text)
    → All IsTitle ts
    → length ts ≤ table_size
    → fill 0 (fgets_all (script ts)) ≡ ok (items 0 ts)
fill-fgets_all ts h n = rw (fgets_all-script ts h) (fill-script 0 ts h (omega arith))
