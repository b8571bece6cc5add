-- ===== src/Advanced/Booted.antt =====
-- What the boot program (closedbsd/init) makes of a script that the menus have left.
use closed_bsd.Advanced.Editor.{Op, choice_of, after_all, AreValid, Shows}
use closed_bsd.Advanced.Refines.{afm_menu-after_all}
use closed_bsd.Advanced.{afm_menu}
use closed_bsd.Base.{
  ◌≡◌, refl, ap, ◌∙◌, inl, inr, List, [], ◌∷◌, ◌++◌, map, append-nil, none, some, arith, All,
  Option-cases,
}
use closed_bsd.Boot.Later.{with_scripts, boot-with_scripts}
use closed_bsd.Boot.Replay.{after_run, boot-lines, fopen_read-eq-none}
use closed_bsd.Boot.{boot, load_ruleset, natset}
use closed_bsd.Fault.{ok}
use closed_bsd.Rules.Menu.Entries.{rule_line, script, IsTitle}
use closed_bsd.Rules.Script.Contents.{IsCommand, lines}
use closed_bsd.Rules.Script.{line}
use closed_bsd.Text.{Text, codes, contains}
use closed_bsd.World.{World, rules, nat}

-- The command of a line of the script.
abbrev pub title_command : Text → Text
title_command t = codes "/sbin/ipfw -q" ++ t

script-lines : (ts : List Text) → script ts ≡ lines (map title_command ts)
script-lines [] = refl
script-lines (t ∷ ts) = ap (λ (s : Text). rule_line t ++ s) (script-lines ts)

map-line : (ts : List Text) → map line (map title_command ts) ≡ map rule_line ts
map-line [] = refl
map-line (t ∷ ts) = ap (λ (ls : List Text). rule_line t ∷ ls) (map-line ts)

title_command-IsCommand : (ts : List Text) → All IsTitle ts → All IsCommand (map title_command ts)
unfolding contains
title_command-IsCommand [] h = tt
title_command-IsCommand (t ∷ ts) h = (
  record { no_newline = h.0.no_newline; short = omega (arith, h.0.short) },
  title_command-IsCommand ts h.1,
)

boot-missing : (w : World) → w.content rules ≡ none → w.content nat ≡ none → boot w ≡ ok w
unfolding boot load_ruleset natset
boot-missing w r n =
    rw (fopen_read-eq-none w nat n, fopen_read-eq-none w rules r, fopen_read-eq-none w nat n) refl

script-nil : (ts : List Text) → [] ≡ script ts → ts ≡ []
script-nil [] e = refl
script-nil (t ∷ ts) e = cc

-- Boot runs the lines of the list that the script shows, and changes no file.
boot-Shows :
    (ts : List Text) (w : World)
    → Shows ts w
    → w.content nat ≡ none
    → boot w ≡ ok (after_run w (map rule_line ts))
boot-Shows ts w h n = elim (Option-cases (w.content rules)) [
  | inl missing ↦
      let empty = script-nil ts (rw missing at h.script_is) in
      boot-missing w missing n ∙ rw (empty, append-nil w.ran) refl
  | inr (c, there) ↦
      let same : c ≡ script ts = rw there at h.script_is in
      boot-lines (map title_command ts) w (title_command-IsCommand ts h.titles) h.opened
        (there ∙ ap some (same ∙ script-lines ts)) n
      ∙ rw (map-line ts) refl
]

-- A session of the six kinds of steps of `Op` in the menus (a TCP rule that allows or a TCP
-- forward typed from the first field down to OK, a raw line, a removal, a look, a clearing), with
-- texts that fit, lines that are there in a list of at most 32, no rule in the memory behind the
-- menu's table, a script that can be opened and holds rule lines, and no NAT script: at a later
-- start with both scripts as they were left, the boot program's calls of load_ruleset and natset
-- run the commands of the edited list in its order.
pub boot-afm_menu :
    (os : List Op) (ts : List Text) (w later : World)
    → AreValid os ts
    → Shows ts w
    → w.content nat ≡ none
    → (w' : World) × (afm_menu (map choice_of os) w ≡ ok w')
      × (boot (with_scripts w' later)
          ≡ ok (after_run (with_scripts w' later) (map rule_line (after_all os ts))))
boot-afm_menu os ts w later v h n =
    let (w', went, shown, others) = afm_menu-after_all os ts w v h in
    (
      w',
      went,
      boot-with_scripts w' later (map rule_line (after_all os ts))
          (boot-Shows (after_all os ts) w' shown (others nat refl ∙ n)),
    )
