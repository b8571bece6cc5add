-- ===== src/Advanced/Editor.antt =====
-- An editor of a list of commands: what the menus of closedbsd/config/fwmenu.c promise of /etc/rules.
use closed_bsd.Advanced.{Choice, filter, forward, manual, delete, list, flush}
use closed_bsd.Base.{ℕ, ◌≤◌, ◌<◌, ◌≡◌, true, List, [], ◌∷◌, ◌++◌, map, some, length, erase_idx, All}
use closed_bsd.Filter.Session as FilterSession
use closed_bsd.Keyboard.{Edit, key_down, enter}
use closed_bsd.PortForward.Session as ForwardSession
use closed_bsd.PortForward.{Stack}
use closed_bsd.Rules.Command.Bounds.{assembled}
use closed_bsd.Rules.Command.{fwd_name, fwd_pieces}
use closed_bsd.Rules.Menu.Entries.{script, IsTitle}
use closed_bsd.Rules.Menu.Kept.{IsBlank}
use closed_bsd.Rules.Menu.{Item, table_size}
use closed_bsd.Rules.Ruleset.{Ruleset, tcp}
use closed_bsd.Text.Cat.{join}
use closed_bsd.Text.Token.{token}
use closed_bsd.Text.{Text, codes}
use closed_bsd.World.{World, rules, or_empty}

-- What a user does: type a TCP rule or a forward from the first field to the last, type a raw line,
-- remove a line, look at the rules, or clear them.
pub data Op : Type 0 where
  type_rule : Text → Edit → Edit → Edit → Edit → Op
  type_forward : Stack → Edit → Edit → Edit → Edit → Edit → Edit → Op
  type_raw : Text → Op
  remove : ℕ → List Item → Op
  look clear : Op

-- The keys by which he does it.
abbrev pub choice_of : Op → Choice
choice_of (type_rule junk s sp d dp) =
    filter junk (FilterSession.downs (key_down ∷ enter ∷ [])) (FilterSession.typed_edits s sp d dp)
choice_of (type_forward stack s sp d dp t tp) =
    forward stack (key_down ∷ key_down ∷ enter ∷ []) (ForwardSession.typed_edits s sp d dp t tp)
choice_of (type_raw t) = manual true t
choice_of (remove k beyond) = delete (some k) beyond
choice_of look = list
choice_of clear = flush

abbrev pub rule_title : Ruleset → Text
rule_title r = assembled (codes " add allow tcp ") r

abbrev pub forward_title : Ruleset → Text
forward_title r =
    (codes " add fwd " ++ (r.other_a ++ (codes "," ++ (r.other_b ++ fwd_name tcp))))
    ++ join (fwd_pieces r)

abbrev pub typed_title : Op → Text
typed_title (type_rule junk s sp d dp) = rule_title (FilterSession.typed_rule s sp d dp junk)
typed_title (type_forward stack s sp d dp t tp) =
    forward_title (ForwardSession.typed_rule s sp d dp t tp stack)
typed_title (type_raw t) = codes " " ++ t
typed_title _ = []

-- What it does to the list. A removal cuts the lines that stay at the first q of their titles.
abbrev pub after : Op → List Text → List Text
after (remove k beyond) ts = map (token b'q') (erase_idx ts k)
after look ts = ts
after clear ts = []
after o ts = ts ++ typed_title o ∷ []

abbrev pub after_all : List Op → List Text → List Text
after_all [] ts = ts
after_all (o ∷ os) ts = after_all os (after o ts)

-- What is typed fits in the fields and in a line of the script; the line to remove is there, in a
-- list that the menu's table can hold, with no rule in the memory behind the table.
abbrev pub IsValid : Op → List Text → Type 0
IsValid (type_rule junk s sp d dp) ts =
    FilterSession.AreTyped s sp d dp
    × IsTitle (rule_title (FilterSession.typed_rule s sp d dp junk))
IsValid (type_forward stack s sp d dp t tp) ts =
    ForwardSession.AreTyped s sp d dp t tp
    × IsTitle (forward_title (ForwardSession.typed_rule s sp d dp t tp stack))
IsValid (type_raw t) ts = IsTitle (codes " " ++ t)
IsValid (remove k beyond) ts = (k < length ts) × (length ts ≤ table_size) × All IsBlank beyond
IsValid look ts = Unit
IsValid clear ts = Unit

abbrev pub AreValid : List Op → List Text → Type 0
AreValid [] ts = Unit
AreValid (o ∷ os) ts = IsValid o ts × AreValid os (after o ts)

-- The script can be opened and holds this list, which is empty where the script is missing.
pub record Shows (ts : List Text) (w : World) : Type 0 where
  pub opened : w.opens rules ≡ true
  pub script_is : or_empty (w.content rules) ≡ script ts
  pub titles : All IsTitle ts
