-- ===== src/Boot/Replay.antt =====
-- The boot program runs again what the shell has entered into the script.
use closed_bsd.Base.{
  ◌≤◌, ◌≡◌, refl, ap, ◌∙◌, true, none, some, List, [], ◌∷◌, ◌++◌, map, append-nil, append_assoc,
  arith, All, All-append,
}
use closed_bsd.Boot.{load_ruleset, natset, boot, run_lines}
use closed_bsd.Fault.{ok}
use closed_bsd.Rules.Command.Bounds.{text_size, assembled}
use closed_bsd.Rules.Command.{opening}
use closed_bsd.Rules.Ruleset.{Ruleset}
use closed_bsd.Rules.Script.Appends.{insert_rule-Appended}
use closed_bsd.Rules.Script.Contents.{IsCommand, lines, fgets_all-lines, lines-append}
use closed_bsd.Rules.Script.{line, insert_rule}
use closed_bsd.Rules.Script
use closed_bsd.Text.{Text}
use closed_bsd.World.{World, File, rules, nat, fopen_read, system}

abbrev pub after_run : World → List Text → World
after_run w bufs = record w { ran = w.ran ++ bufs }

pub run_lines-ran : (bufs : List Text) (w : World) → run_lines bufs w ≡ after_run w bufs
unfolding run_lines
run_lines-ran [] w = rw (append-nil w.ran) refl
run_lines-ran (buf ∷ bufs) w =
    run_lines-ran bufs (system w buf) ∙ rw (append_assoc w.ran (buf ∷ []) bufs) refl

pub fopen_read-eq-some :
    (w : World) (f : File) {c : Text}
    → w.opens f ≡ true
    → w.content f ≡ some c
    → fopen_read w f ≡ some c
fopen_read-eq-some w f o c = ground arith

pub fopen_read-eq-none : (w : World) (f : File) → w.content f ≡ none → fopen_read w f ≡ none
fopen_read-eq-none w f c = ground arith

-- Without a NAT script, boot runs the commands of the script in order, each with its newline, and
-- changes no file.
pub boot-lines :
    (cmds : List Text) (w : World)
    → All IsCommand cmds
    → w.opens rules ≡ true
    → w.content rules ≡ some (lines cmds)
    → w.content nat ≡ none
    → boot w ≡ ok (after_run w (map line cmds))
unfolding boot load_ruleset natset
boot-lines cmds w h o c n =
    rw
      (
        fopen_read-eq-none w nat n,
        fopen_read-eq-some w rules o c,
        fgets_all-lines cmds h,
        run_lines-ran (map line cmds) w,
        fopen_read-eq-none (after_run w (map line cmds)) nat n,
      )
      refl

-- A rule that is inserted into a script of commands, each on one line that fgets can hold, is run
-- at the next boot behind those that were there, where there is no NAT script.
pub boot-insert_rule :
    (r : Ruleset) (cmds : List Text) (w : World) {o : Text}
    → opening r.proto r.action ≡ ok o
    → text_size r.proto r ≤ 192
    → IsCommand (assembled o r)
    → All IsCommand cmds
    → w.opens rules ≡ true
    → w.content rules ≡ some (lines cmds)
    → w.content nat ≡ none
    → (w' : World) × (insert_rule r w ≡ ok (w', Script.success))
      × (boot w' ≡ ok (record w' { ran = w'.ran ++ map line (cmds ++ assembled o r ∷ []) }))
boot-insert_rule r cmds w {o} e n i h p c m =
    let (w', done, appended) = insert_rule-Appended r w e n p in
    (
      w',
      done,
      boot-lines (cmds ++ assembled o r ∷ []) w'
          (All-append IsCommand cmds (assembled o r ∷ []) h (i, tt)) (rw appended.opens_same p)
          (appended.script_is ∙ rw c (ap some (lines-append cmds (assembled o r))))
          (appended.others nat refl ∙ m),
    )
