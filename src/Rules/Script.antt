-- ===== src/Rules/Script.antt =====
-- The script /etc/rules: `__insert_rule` appends a rule's command, `raw_add_rule` a line that the
-- user typed.
pub mod Appends
pub mod Contents
pub mod Forwards
use closed_bsd.Base.{
  ℕ, Bool, not, true, false, ◌&&◌, List, [], ◌∷◌, ◌++◌, Option, none, some, if◌then◌else◌,
}
use closed_bsd.Fault.{Result, ok, fault, ◌>>=◌}
use closed_bsd.Rules.Command.{command, fwd_command}
use closed_bsd.Rules.Ruleset.{Ruleset, is_reset, is_fwd, is_tcp}
use closed_bsd.Text.{Text, codes, snprintf}
use closed_bsd.World.{World, rules, fopen_append, fprintf, system}

-- The results 0 and -1.
pub data Ret : Type 0 where
  success failure : Ret

-- fprintf(stream, "%s\n", cmd)
abbrev pub line : Text → Text
line cmd = cmd ++ codes "\n"

-- The tail of the FWD branch. The inner snprintf(cmd, sizeof(cmd), "%s", cmd) copies `cmd` onto
-- itself.
abbrev pub run_fwd : World → Text → World × Ret
run_fwd w cmd = (system (fprintf w rules (line cmd)) (snprintf 256 cmd), success)

abbrev pub run_rule : World → Text → World × Ret
run_rule w cmd = (
  system (fprintf (system w (snprintf 256 cmd)) rules (line cmd))
      (codes "/sbin/chmod 744 /etc/rules"),
  success,
)

-- The body of `__insert_rule` once the stream is open.
unfoldable pub with_stream : Ruleset → World → Result (World × Ret)
with_stream r w =
    if is_reset r.action && not (is_tcp r.proto)
    then ok (w, failure)
    else if is_fwd r.action
    then (fwd_command r >>= λ cmd. ok (run_fwd w cmd))
    else (command r >>= λ cmd. ok (run_rule w cmd))

-- __insert_rule
unfoldable pub insert_rule : Ruleset → World → Result (World × Ret)
unfolding with_stream
insert_rule r w = elim (fopen_append w rules) [
  | none ↦ ok (w, failure)
  | some w' ↦ with_stream r w'
]

-- raw_add_rule
unfoldable pub raw_add_rule : Text → World → World × Ret
raw_add_rule rule w = elim (fopen_append w rules) [
  | none ↦ (w, failure)
  | some w' ↦
      let w₁ = fprintf w' rules (codes "/sbin/ipfw -q " ++ line rule) in
      (system (system w₁ (codes "/sbin/ipfw -q flush")) (codes "/bin/sh /etc/rules"), success)
]
