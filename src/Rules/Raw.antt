-- ===== src/Rules/Raw.antt =====
-- `raw_drop_rule`: deleting a line of /etc/rules by its number, through a copy in /tmp/rules.
pub mod Copy
pub mod RoundTrip
use closed_bsd.Base.{ℕ, ◌+◌, List, [], ◌∷◌, Option, none, some, ◌==◌, if◌then◌else◌}
use closed_bsd.Fault.{Result, ok, fault, null}
use closed_bsd.Text.Lines.{fgets_all}
use closed_bsd.Text.{Text}
use closed_bsd.World.{World, rules, tmp_rules, fopen_read, fopen_append, fprintf, unlink}

-- The results 0 and -1.
pub data Ret : Type 0 where
  success failure : Ret

-- while (fgets(buf, …)) { if (i != line) fprintf(tmp, "%s", buf); i += 1; }
pub copy_but : ℕ → ℕ → List Text → World → World
copy_but i line [] w = w
copy_but i line (buf ∷ bufs) w =
    copy_but (i + 1) line bufs (if i == line then w else fprintf w tmp_rules buf)

-- while (fgets(buf, …, tmp)) fprintf(stream, "%s", buf);
pub copy_back : List Text → World → World
copy_back [] w = w
copy_back (buf ∷ bufs) w = copy_back bufs (fprintf w rules buf)

-- From the second fopen of /tmp/rules on.
pub write_back : World → World × Ret
unfolding copy_back
write_back w = elim (fopen_read w tmp_rules) [
  | none ↦ (w, failure)
  | some kept ↦ elim (fopen_append (unlink w rules) rules) [
    | none ↦ (unlink (unlink w rules) tmp_rules, failure)
    | some w' ↦ (unlink (copy_back (fgets_all kept) w') tmp_rules, success)
  ]
]

-- The copy, with the stream `tmp` open or null. A null `tmp` is handed to fprintf, or at the
-- latest to fclose.
pub with_tmp : ℕ → Option World → World → Result (World × Ret)
unfolding copy_but write_back
with_tmp line none w = elim (fopen_read w rules) [ none ↦ ok (w, failure) | some _ ↦ fault null ]
with_tmp line (some w) _ = elim (fopen_read w rules) [
  | none ↦ ok (w, failure)
  | some content ↦ ok (write_back (copy_but 1 line (fgets_all content) w))
]

-- raw_drop_rule
unfoldable pub raw_drop_rule : ℕ → World → Result (World × Ret)
unfolding with_tmp
raw_drop_rule line w = let w₁ = unlink w tmp_rules in with_tmp line (fopen_append w₁ tmp_rules) w₁
