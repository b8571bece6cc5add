-- ===== src/Rules/Script/Appends.antt =====
-- What `__insert_rule` does on each of its branches.
use closed_bsd.Base.{
  ◌≤◌, ◌<◌, ◌≡◌, refl, true, false, not, ◌&&◌, [], ◌∷◌, ◌++◌, append_assoc, some, arith, length,
  take-eq_of_le, Bool-cases, ◌⊎◌, inl, inr,
}
use closed_bsd.Fault.{ok}
use closed_bsd.Rules.Command.Bounds.{text_size, assembled, command-fits}
use closed_bsd.Rules.Command.{opening}
use closed_bsd.Rules.Ruleset.{
  Action, allow, fwd, reset, Proto, ip, tcp, Ruleset, is_reset, is_fwd, is_tcp,
}
use closed_bsd.Rules.Script.{success, failure, line, insert_rule, run_rule}
use closed_bsd.Text.{Text, codes}
use closed_bsd.World.{World, File, rules, same, put, or_empty}

-- One more command in the script, and the commands run for it.
pub record Appended (cmd : Text) (w w' : World) : Type 0 where
  pub script_is : w'.content rules ≡ some (or_empty (w.content rules) ++ line cmd)
  pub others : (f : File) → same rules f ≡ false → w'.content f ≡ w.content f
  pub opens_same : w'.opens ≡ w.opens
  pub ran_is : w'.ran ≡ w.ran ++ (cmd ∷ codes "/sbin/chmod 744 /etc/rules" ∷ [])

-- The actions for which some protocol has a command pass both guards.
opening-guards :
    (p : Proto) (a : Action) {o : Text}
    → opening p a ≡ ok o
    → ((is_reset a && not (is_tcp p)) ≡ false) × (is_fwd a ≡ false)
unfolding opening
opening-guards ip allow e = (refl, refl)
opening-guards tcp reset e = (refl, refl)
opening-guards _ fwd e = cc
opening-guards _ reset e = cc
opening-guards _ _ e = (refl, refl)

run_rule-Appended :
    (w : World) (cmd : Text)
    → length cmd < 256
    → Appended cmd w (run_rule (put w rules (or_empty (w.content rules))) cmd).0
run_rule-Appended w cmd h = record {
  script_is = refl;
  others = λ f e. rw e refl;
  opens_same = refl;
  ran_is = rw (take-eq_of_le 255 cmd (omega arith)) (append_assoc w.ran (cmd ∷ []) _);
}

-- A rule that has a command, and whose texts take at most 192 bytes, is appended to the script,
-- where that can be opened; its command is run, and the script is made executable.
pub insert_rule-Appended :
    (r : Ruleset) (w : World) {o : Text}
    → opening r.proto r.action ≡ ok o
    → text_size r.proto r ≤ 192
    → w.opens rules ≡ true
    → (w' : World) × (insert_rule r w ≡ ok (w', success)) × Appended (assembled o r) w w'
unfolding insert_rule
insert_rule-Appended r w {o} e h p =
    let (whole, short) = command-fits r e h in
    let (g, n) = opening-guards r.proto r.action e in
    (_, rw (p, insert_rule) (rw (g, n, whole) refl), run_rule-Appended w (assembled o r) short)

-- What a refused rule leaves: the script as it was, or empty where it was missing; nothing is run.
pub record Refused (w w' : World) : Type 0 where
  pub script_is : or_empty (w'.content rules) ≡ or_empty (w.content rules)
  pub others : (f : File) → same rules f ≡ false → w'.content f ≡ w.content f
  pub opens_same : w'.opens ≡ w.opens
  pub ran_same : w'.ran ≡ w.ran

-- A script that cannot be opened, or RESET for a protocol other than TCP, is refused.
pub insert_rule-Refused :
    (r : Ruleset) (w : World)
    → (w.opens rules ≡ false) ⊎ ((is_reset r.action && not (is_tcp r.proto)) ≡ true)
    → (w' : World) × (insert_rule r w ≡ ok (w', failure)) × Refused w w'
unfolding insert_rule
insert_rule-Refused r w h = elim (Bool-cases (w.opens rules)) [
  | inr closed ↦ (
    w,
    rw (closed, insert_rule) refl,
    record { script_is = refl; others = λ f e. refl; opens_same = refl; ran_same = refl },
  )
  | inl opened ↦
      let guard : (is_reset r.action && not (is_tcp r.proto)) ≡ true = elim h [
        | inl c ↦ cc
        | inr g ↦ g
      ] in
      (
        put w rules (or_empty (w.content rules)),
        rw (opened, insert_rule) (rw guard refl),
        record { script_is = refl; others = λ f e. rw e refl; opens_same = refl; ran_same = refl },
      )
]
