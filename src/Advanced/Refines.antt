-- ===== src/Advanced/Refines.antt =====
-- The menus do to /etc/rules what the editor does to its list.
use closed_bsd.Advanced.Editor.{
  Op, type_rule, type_forward, type_raw, remove, look, clear, choice_of, rule_title, forward_title,
  after, after_all, IsValid, AreValid, Shows,
}
use closed_bsd.Advanced.Titles.{script-append, map-erase_idx-IsTitle}
use closed_bsd.Advanced.{afi_manual, afm_flush, afm_menu, fire}
use closed_bsd.Base.{
  ℕ, ◌≤◌, ◌<◌, ◌≡◌, refl, ap, ◌∙◌, false, List, [], ◌∷◌, ◌++◌, map, none, some, arith, lt→ltb,
  length, All, All-append, Option,
}
use closed_bsd.Fault.{ok}
use closed_bsd.Filter.Session as FilterSession
use closed_bsd.Keyboard.{Edit}
use closed_bsd.PortForward.Session as ForwardSession
use closed_bsd.PortForward.{Stack}
use closed_bsd.Rules.Menu.Delete.{delete_rule-Deleted}
use closed_bsd.Rules.Menu.Entries.{rule_line, script, IsTitle}
use closed_bsd.Rules.Menu.Kept.{IsBlank}
use closed_bsd.Rules.Menu.{Item, table_size}
use closed_bsd.Rules.Script.{raw_add_rule}
use closed_bsd.Text.{Text, codes}
use closed_bsd.World.{World, File, rules, same, or_empty}

-- Every other file is as it was.
abbrev pub KeepsOthers : World → World → Type 0
KeepsOthers w w' = (f : File) → same rules f ≡ false → w'.content f ≡ w.content f

-- What firing the choice of an operation gives.
abbrev Done : Op → List Text → World → Type 0
Done o ts w =
    (w' : World) × (fire (choice_of o) w ≡ ok w') × Shows (after o ts) w' × KeepsOthers w w'

line-Shows :
    (ts : List Text) (t : Text) (w w' : World)
    → Shows ts w
    → IsTitle t
    → w'.opens ≡ w.opens
    → w'.content rules ≡ some (or_empty (w.content rules) ++ rule_line t)
    → Shows (ts ++ t ∷ []) w'
line-Shows ts t w w' h n o c = record {
  opened = rw o h.opened;
  script_is = rw (c, h.script_is) (script-append ts t);
  titles = All-append IsTitle ts (t ∷ []) h.titles (n, tt);
}

type_rule-Done :
    (junk : Text) (s sp d dp : Edit) (ts : List Text) (w : World)
    → FilterSession.AreTyped s sp d dp
    → IsTitle (rule_title (FilterSession.typed_rule s sp d dp junk))
    → Shows ts w
    → Done (type_rule junk s sp d dp) ts w
unfolding fire
type_rule-Done junk s sp d dp ts w a n h =
    let (w', inserted, grown) = FilterSession.proto_filter-Appended s sp d dp junk w a h.opened in
    (
      w',
      rw inserted refl,
      line-Shows ts (rule_title (FilterSession.typed_rule s sp d dp junk)) w w' h n grown.opens_same
          grown.script_is,
      grown.others,
    )

type_forward-Done :
    (stack : Stack) (s sp d dp t tp : Edit) (ts : List Text) (w : World)
    → ForwardSession.AreTyped s sp d dp t tp
    → IsTitle (forward_title (ForwardSession.typed_rule s sp d dp t tp stack))
    → Shows ts w
    → Done (type_forward stack s sp d dp t tp) ts w
unfolding fire
type_forward-Done stack s sp d dp t tp ts w a n h =
    let (w', inserted, grown) =
      ForwardSession.proto_forward-Forwarded s sp d dp t tp stack w a h.opened in
    (
      w',
      rw inserted refl,
      line-Shows ts (forward_title (ForwardSession.typed_rule s sp d dp t tp stack)) w w' h n
          grown.opens_same grown.script_is,
      grown.others,
    )

type_raw-Done :
    (t : Text) (ts : List Text) (w : World)
    → IsTitle (codes " " ++ t)
    → Shows ts w
    → Done (type_raw t) ts w
unfolding fire afi_manual raw_add_rule
type_raw-Done t ts w n h =
    let w' = (raw_add_rule t w).0 in
    (
      w',
      rw (lt→ltb (length t) 256 (omega (arith, n.short))) refl,
      line-Shows ts (codes " " ++ t) w w' h n (rw (h.opened, raw_add_rule) refl)
          (rw (h.opened, raw_add_rule) refl),
      (λ f e. rw (h.opened, raw_add_rule) (rw e refl)),
    )

-- A script with a line in it is a file.
script-content :
    (c : Option Text) (t : Text) (ts : List Text)
    → or_empty c ≡ script (t ∷ ts)
    → c ≡ some (script (t ∷ ts))
script-content none t ts e = cc
script-content (some s) t ts e = ap some e

remove-Done :
    (k : ℕ) (beyond : List Item) (ts : List Text) (w : World)
    → k < length ts
    → length ts ≤ table_size
    → All IsBlank beyond
    → Shows ts w
    → Done (remove k beyond) ts w
unfolding fire
remove-Done k beyond [] w l n b h = absurd (omega arith)
remove-Done k beyond (t ∷ ts) w l n b h =
    let (w', dropped, d) =
      delete_rule-Deleted k (t ∷ ts) beyond w h.opened
        (script-content (w.content rules) t ts h.script_is) h.titles l n b in
    (
      w',
      rw dropped refl,
      record {
        opened = rw d.opens_same h.opened;
        script_is = rw d.script_left refl;
        titles = map-erase_idx-IsTitle k (t ∷ ts) h.titles;
      },
      d.others,
    )

fire-Done : (o : Op) (ts : List Text) (w : World) → IsValid o ts → Shows ts w → Done o ts w
unfolding fire afm_flush
fire-Done (type_rule junk s sp d dp) ts w v h = type_rule-Done junk s sp d dp ts w v.0 v.1 h
fire-Done (type_forward stack s sp d dp t tp) ts w v h =
    type_forward-Done stack s sp d dp t tp ts w v.0 v.1 h
fire-Done (type_raw t) ts w v h = type_raw-Done t ts w v h
fire-Done (remove k beyond) ts w v h = remove-Done k beyond ts w v.0 v.1 v.2 h
fire-Done look ts w v h = (w, refl, h, λ f e. refl)
fire-Done clear ts w v h =
    (_, refl, record { opened = h.opened; script_is = refl; titles = tt }, λ f e. rw e refl)

-- For a session of six kinds of steps in the menus - a TCP rule that allows, or a TCP forward,
-- typed from the first field down to OK, a raw line, the removal of a line, a look at the rules
-- and their clearing - where each text fits in its field and in a line, each removed line is
-- there in a list of at most 32, no rule stands in the memory behind the menu's table, and the
-- script can be opened and holds a list of rule lines: the menus return, /etc/rules holds the
-- list that the editor makes of it, in which a removal also cuts the lines that stay at the first
-- q of their titles, and every other file is as it was.
pub afm_menu-after_all :
    (os : List Op) (ts : List Text) (w : World)
    → AreValid os ts
    → Shows ts w
    → (w' : World) × (afm_menu (map choice_of os) w ≡ ok w')
      × Shows (after_all os ts) w'
      × KeepsOthers w w'
unfolding afm_menu
afm_menu-after_all [] ts w v h = (w, refl, h, λ f e. refl)
afm_menu-after_all (o ∷ os) ts w v h =
    let (w₁, fired, shown, others) = fire-Done o ts w v.0 h in
    let (w₂, went, shown₂, others₂) = afm_menu-after_all os (after o ts) w₁ v.1 shown in
    (w₂, rw fired went, shown₂, λ f e. others₂ f e ∙ others f e)
