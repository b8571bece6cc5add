-- ===== src/Rules/Script/Forwards.antt =====
-- What `__insert_rule` does with a forward.
use closed_bsd.Base.{
  ◌≤◌, ◌<◌, ◌≡◌, refl, ◌⊎◌, true, false, not, ◌&&◌, some, [], ◌∷◌, ◌++◌, arith, length,
  take-eq_of_le,
}
use closed_bsd.Fault.{ok}
use closed_bsd.Rules.Command.Forward.{fwd_text}
use closed_bsd.Rules.Command.FwdBounds.{fwd_size, fwd_command-fits}
use closed_bsd.Rules.Ruleset.{Action, fwd, Proto, tcp, udp, Ruleset, is_reset, is_fwd, is_tcp}
use closed_bsd.Rules.Script.{success, line, insert_rule, with_stream, run_fwd}
use closed_bsd.Text.{Text}
use closed_bsd.World.{World, File, rules, same, put, or_empty}

-- One more command in the script, and that command run.
pub record Forwarded (cmd : Text) (w w' : World) : Type 0 where
  pub script_is : w'.content rules ≡ some (or_empty (w.content rules) ++ line cmd)
  pub others : (f : File) → same rules f ≡ false → w'.content f ≡ w.content f
  pub opens_same : w'.opens ≡ w.opens
  pub ran_is : w'.ran ≡ w.ran ++ (cmd ∷ [])

fwd-guards :
    (p : Proto) (a : Action)
    → a ≡ fwd
    → ((is_reset a && not (is_tcp p)) ≡ false) × (is_fwd a ≡ true)
fwd-guards p fwd e = (refl, refl)
fwd-guards p _ e = cc

run_fwd-Forwarded :
    (w : World) (cmd : Text)
    → length cmd < 256
    → Forwarded cmd w (run_fwd (put w rules (or_empty (w.content rules))) cmd).0
run_fwd-Forwarded w cmd h = record {
  script_is = refl;
  others = λ f e. rw e refl;
  opens_same = refl;
  ran_is = rw (take-eq_of_le 255 cmd (omega arith)) refl;
}

-- A forward of TCP or UDP whose texts take at most 192 bytes is appended to the script that can be
-- opened, and its command is run; the script is not made executable.
pub insert_rule-Forwarded :
    (r : Ruleset) (w : World)
    → r.action ≡ fwd
    → (r.proto ≡ tcp) ⊎ (r.proto ≡ udp)
    → fwd_size r ≤ 192
    → w.opens rules ≡ true
    → (w' : World) × (insert_rule r w ≡ ok (w', success)) × Forwarded (fwd_text r) w w'
unfolding insert_rule with_stream
insert_rule-Forwarded r w a p h o =
    let (whole, short) = fwd_command-fits r p h in
    let (g, n) = fwd-guards r.proto r.action a in
    (_, rw (o, insert_rule) (rw (g, n, whole) refl), run_fwd-Forwarded w (fwd_text r) short)
