-- ===== src/Summary.antt =====
-- The summary of the configuration (closedbsd/config/sum.c).
pub mod Shown
mod Examples
use closed_bsd.Base.{ℕ, ◌+◌, Option, none, some, List, [], ◌∷◌, ltb, length, if◌then◌else◌}
use closed_bsd.Btree.{Btree}
use closed_bsd.Devices.Device.{Device, State}
use closed_bsd.Devices.Search.{records}
use closed_bsd.Fault.{Result, ok, fault, null, ◌>>=◌}
use closed_bsd.Rules.Menu.{chop}
use closed_bsd.Text.Lines.{fgets_all}
use closed_bsd.Text.Token.{second_token}
use closed_bsd.Text.{Text}
use closed_bsd.World.{World, rules, fopen_read}

-- A row of the screen with what is printed in it.
abbrev pub Row : Type 0 → Type 0
Row A = ℕ × A

-- while (db->seq(…) == 0) mvwprintw(w, i, …, d.device, …, d.ip, …, d.netmask, …)
unfoldable pub device_rows : ℕ → List (ℕ × Device) → List (Row (Text × Text × Text))
device_rows i [] = []
device_rows i ((k, d) ∷ m) = (i, (d.device, d.ip, d.netmask)) ∷ device_rows (i + 1) m

-- s = strtok(NULL, "q"); s[strlen(s) - 1] = '\0'; mvwprintw(w, f, 6, "%s", s);
abbrev pub rule_row : ℕ → Option Text → Result (List (Row Text)) → Result (List (Row Text))
rule_row f none rest = fault null
rule_row f (some s) rest = rest >>= λ rows. ok ((f, chop s) ∷ rows)

-- while (fgets(buf, …) != NULL && f < 21) …
unfoldable pub rule_rows : ℕ → List Text → Result (List (Row Text))
rule_rows f [] = ok []
rule_rows f (buf ∷ bufs) =
    let rest = rule_rows (f + 1) bufs in
    if ltb f 21 then rule_row f (second_token b'q' buf) rest else ok []

-- `none` where the script cannot be opened, and the summary says that there are no rules.
abbrev pub rules_shown : ℕ → Option Text → Result (Option (List (Row Text)))
rules_shown f none = ok none
rules_shown f (some content) = rule_rows f (fgets_all content) >>= λ rows. ok (some rows)

module _ (b : Btree Device) where
  -- `summary`: the rows of the devices from row 3, and those of the rules from the fourth row below.
  unfoldable pub summary :
      State b → World → Result (List (Row (Text × Text × Text)) × Option (List (Row Text)))
  summary s w = records b s >>= λ m.
      rules_shown (3 + length m + 4) (fopen_read w rules) >>= λ shown. ok (device_rows 3 m, shown)
