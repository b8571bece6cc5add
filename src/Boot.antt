-- ===== src/Boot.antt =====
-- What the boot program does with the scripts (closedbsd/init/rules.c): `natset` starts natd, and
-- `ruleset` runs the commands of /etc/rules.
pub mod Replay
pub mod Later
pub mod Interfaces
pub mod Configured
mod Examples
use closed_bsd.Base.{Option, none, some, List, [], ◌∷◌, ◌++◌, ltb, length, if◌then◌else◌}
use closed_bsd.Fault.{Result, ok, fault, uninitialised, ◌>>=◌}
use closed_bsd.Text.Lines.{fgets_all}
use closed_bsd.Text.{Text, codes, snprintf}
use closed_bsd.World.{World, rules, nat, fopen_read, system}

-- The results 0 and -1.
pub data Ret : Type 0 where
  success failure : Ret

-- system(buffer), where the buffer may never have been written.
abbrev system_of : World → Option Text → Result World
system_of w none = fault uninitialised
system_of w (some cmd) = ok (system w cmd)

-- while (fgets(buf, …)) if (strlen(buf) >= 3) { snprintf(nat, …); break; }
unfoldable pub natd_command : List Text → Option Text
natd_command [] = none
natd_command (buf ∷ bufs) =
    if ltb 2 (length buf)
    then some (snprintf 256 (codes "/sbin/natd -n " ++ (buf ++ codes "\n")))
    else natd_command bufs

-- `natset` behind its fopen, with the content of the stream, or null.
abbrev pub start_natd : Option Text → World → Result (World × Ret)
start_natd none w = ok (w, failure)
start_natd (some content) w =
    system_of w (natd_command (fgets_all content)) >>= λ w'. ok (w', success)

unfoldable pub natset : World → Result (World × Ret)
natset w = start_natd (fopen_read w nat) w

-- while (fgets(buf, …)) snprintf(nat, …): the last line's command stays. `cmd` is what `nat` holds.
unfoldable pub divert_command : Option Text → List Text → Option Text
divert_command cmd [] = cmd
divert_command cmd (buf ∷ bufs) =
    divert_command
      (some
        (snprintf 256 (codes "/sbin/ipfw -q add 85 divert 8668 ip from any to any via " ++ buf)))
      bufs

-- The part of `ruleset` under "first add divert".
abbrev pub add_divert : Option Text → World → Result World
add_divert none w = ok w
add_divert (some content) w = system_of w (divert_command none (fgets_all content))

-- while (fgets(buf, …)) { system(buf); … }
unfoldable pub run_lines : List Text → World → World
run_lines [] w = w
run_lines (buf ∷ bufs) w = run_lines bufs (system w buf)

-- The part of `ruleset` under "then the ruleset".
abbrev pub run_script : Option Text → World → World × Ret
run_script none w = (w, failure)
run_script (some content) w = (run_lines (fgets_all content) w, success)

-- `ruleset`
unfoldable pub load_ruleset : World → Result (World × Ret)
load_ruleset w = add_divert (fopen_read w nat) w >>= λ w'. ok (run_script (fopen_read w' rules) w')

-- The two calls of the boot program, one after the other; neither result is read.
unfoldable pub boot : World → Result World
unfolding load_ruleset natset
boot w = load_ruleset w >>= λ r. natset r.0 >>= λ s. ok s.0
