-- ===== src/Rules/Script/Contents.antt =====
-- The script /etc/rules as a list of commands, one to a line (closedbsd/config/rules.c).
use closed_bsd.Base.{
  ◌≤◌, ◌≡◌, refl, sym, ap, ◌∙◌, false, List, [], ◌∷◌, ◌++◌, map, append-nil, append_assoc, length,
  All,
}
use closed_bsd.Rules.Script.{line}
use closed_bsd.Text.Cat.{join}
use closed_bsd.Text.Lines.{fgets_all, fgets_all-line, chunks}
use closed_bsd.Text.{Text, codes, contains}

-- A command that fgets reads in one line.
pub record IsCommand (cmd : Text) : Type 0 where
  pub no_newline : contains b'\n' cmd ≡ false
  pub short : length cmd ≤ 254

-- The script that holds these commands.
abbrev pub lines : List Text → Text
lines cmds = join (map line cmds)

pub fgets_all-lines :
    (cmds : List Text) → All IsCommand cmds → fgets_all (lines cmds) ≡ map line cmds
unfolding chunks
fgets_all-lines [] h = refl
fgets_all-lines (cmd ∷ cmds) h =
    ap fgets_all (append_assoc cmd (codes "\n") (lines cmds))
    ∙ fgets_all-line cmd (lines cmds) h.0.no_newline h.0.short
    ∙ ap (◌∷◌ (line cmd)) (fgets_all-lines cmds h.1)

pub lines-append :
    (cmds : List Text) (cmd : Text) → lines cmds ++ line cmd ≡ lines (cmds ++ cmd ∷ [])
lines-append [] cmd = sym (append-nil (line cmd))
lines-append (c ∷ cmds) cmd =
    append_assoc (line c) (lines cmds) (line cmd) ∙ ap (λ t. line c ++ t) (lines-append cmds cmd)
