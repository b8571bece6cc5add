-- ===== src/Loaded/Booted.antt =====
-- From the forms over the script and the boot to the kernel: closedbsd/config/rules.c writes the
-- commands, closedbsd/init/rules.c runs them, and sbin/ipfw/ipfw.c asks the kernel for the rules.
use closed_bsd.Base.{◌≤◌, ◌≡◌, false, List, [], ◌∷◌, ◌++◌, map, some, All}
use closed_bsd.Fault.{Result, ok, ◌>>=◌}
use closed_bsd.Ipfw.Dispatch.{Request, add_rule, ipfw_main}
use closed_bsd.Ipfw.Exits.{Exit, done}
use closed_bsd.Ipfw.Libc.{Libc}
use closed_bsd.Loaded.Spec.{redirect, Endpoints, AreEndpoints, clashes, kernel_rule}
use closed_bsd.Rules.Command.Bounds.{text_size, assembled}
use closed_bsd.Rules.Command.Grammar.{IsSpoken}
use closed_bsd.Rules.Command.{opening}
use closed_bsd.Rules.Ruleset.{Ruleset}
use closed_bsd.Rules.Script.Contents.{IsCommand, lines}
use closed_bsd.Rules.Script.{line, insert_rule}
use closed_bsd.Text.Token.{token}
use closed_bsd.Text.Words.{words}
use closed_bsd.Text.{Text}
use closed_bsd.World.{World, rules, nat}

-- What system(cmd) comes to for a command of ipfw: sh reads the first line, and ipfw its words.
abbrev pub asked : Libc → Text → Exit Request
asked libc cmd = ipfw_main libc false (words (token b'\n' cmd))

-- The rules that the user enters, one after the other.
abbrev pub insert_all : List Ruleset → World → Result World
insert_all [] w = ok w
insert_all (r ∷ rs) w = insert_rule r w >>= λ s. insert_all rs s.0

abbrev pub Known : Type 0
Known = Ruleset × Endpoints

-- A rule with a command of one line that ipfw takes.
pub record IsLoadable (libc : Libc) (known : Known) : Type 0 where
  pub start : Text
  pub opened : opening known.0.proto known.0.action ≡ ok start
  pub size : text_size known.0.proto known.0 ≤ 192
  pub command : IsCommand (assembled start known.0)
  pub spoken : IsSpoken known.0
  pub ends : AreEndpoints libc known.0 known.1
  pub agrees : clashes known.0.proto known.0.option known.1 ≡ false

abbrev pub rule_asked : Known → Exit Request
rule_asked known = done (add_rule (kernel_rule redirect known.0 known.1))

-- The commands stand in the script, behind those that were there.
record Entered (libc : Libc) (ks : List Known) (before : List Text) (w w' : World) : Type 0 where
  cmds : List Text
  are_commands : All IsCommand cmds
  opens_same : w'.opens ≡ w.opens
  script_is : w'.content rules ≡ some (lines (before ++ cmds))
  nat_same : w'.content nat ≡ w.content nat
  asked_is : map (λ cmd. asked libc (line cmd)) cmds ≡ map rule_asked ks
