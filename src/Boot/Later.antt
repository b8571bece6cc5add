-- ===== src/Boot/Later.antt =====
-- A later start of the machine. The boot program mounts an empty /etc, copies the defaults to it and
-- may bring back a saved one (do_rc of closedbsd/init/init.c) before it runs the scripts: only what
-- stands in the two scripts then counts.
use closed_bsd.Base.{
  ◌≡◌, refl, sym, ap, ◌∙◌, none, some, Option, Option-cases, List, [], ◌∷◌, ◌++◌, append-nil,
  append_assoc, inl, inr, ◌||◌, if◌then◌else◌,
}
use mathlib.Core.List.{append_cancel_left}
use closed_bsd.Boot.{load_ruleset, natset, boot, divert_command, natd_command, run_script}
use closed_bsd.Boot.Replay.{after_run, run_lines-ran}
use closed_bsd.Fault.{Result, ok, fault, uninitialised, ◌>>=◌, >>=-eq-ok, ok-injective}
use closed_bsd.Text.{Text}
use closed_bsd.Text.Lines.{fgets_all}
use closed_bsd.World.{World, rules, nat, same, fopen_read, system}

-- The machine as it starts later, with both scripts as they were left.
abbrev pub with_scripts : World → World → World
with_scripts left later = record later {
  content = λ f. if same f rules || same f nat then left.content f else later.content f;
  opens = left.opens;
}

abbrev run_of : Option Text → Result (List Text)
run_of none = fault uninitialised
run_of (some cmd) = ok (cmd ∷ [])

abbrev divert_run : Option Text → Result (List Text)
divert_run none = ok []
divert_run (some content) = run_of (divert_command none (fgets_all content))

abbrev natd_run : Option Text → Result (List Text)
natd_run none = ok []
natd_run (some content) = run_of (natd_command (fgets_all content))

abbrev script_run : Option Text → List Text
script_run none = []
script_run (some content) = fgets_all content

-- What the boot runs, from the contents of the NAT script and of the script.
abbrev boot_run : Option Text → Option Text → Result (List Text)
boot_run n r = divert_run n >>= λ ds. natd_run n >>= λ ns. ok (ds ++ (script_run r ++ ns))

ran_twice : (w : World) (xs ys : List Text) → after_run (after_run w xs) ys ≡ after_run w (xs ++ ys)
ran_twice w xs ys = rw (append_assoc w.ran xs ys) refl

-- The script and the NAT script, behind what has been run.
script_natd :
    (w : World) (n r : Option Text)
    → fopen_read w nat ≡ n
    → fopen_read w rules ≡ r
    → (natset (run_script r w).0 >>= λ s. ok s.0)
      ≡ (natd_run n >>= λ ns. ok (after_run w (script_run r ++ ns)))
unfolding natset
script_natd w none none hn hr = rw hn (rw (append-nil w.ran) refl)
script_natd w none (some c) hn hr =
    rw (run_lines-ran (fgets_all c) w) (rw hn (rw (append-nil (fgets_all c)) refl))
script_natd w (some d) none hn hr = elim (Option-cases (natd_command (fgets_all d))) [
  | inl e ↦ rw hn (rw e refl)
  | inr (cmd, e) ↦ rw hn (rw e refl)
]
script_natd w (some d) (some c) hn hr = elim (Option-cases (natd_command (fgets_all d))) [
  | inl e ↦ rw (run_lines-ran (fgets_all c) w) (rw hn (rw e refl))
  | inr (cmd, e) ↦
      rw (run_lines-ran (fgets_all c) w)
        (rw hn (rw e (ap (λ (x : World). ok x) (ran_twice w (fgets_all c) (cmd ∷ [])))))
]

-- What was run before stands in front.
behind :
    (w : World) (cmd : Text) (n : Result (List Text)) (xs : List Text)
    → (n >>= λ ns. ok (after_run (system w cmd) (xs ++ ns)))
      ≡ ((n >>= λ ns. ok (cmd ∷ (xs ++ ns))) >>= λ cmds. ok (after_run w cmds))
behind w cmd (fault kind) xs = refl
behind w cmd (ok ns) xs = ap (λ (x : World). ok x) (ran_twice w (cmd ∷ []) (xs ++ ns))

same_run :
    (w : World) (n : Result (List Text)) (xs : List Text)
    → (n >>= λ ns. ok (after_run w (xs ++ ns)))
      ≡ ((n >>= λ ns. ok (xs ++ ns)) >>= λ cmds. ok (after_run w cmds))
same_run w (fault kind) xs = refl
same_run w (ok ns) xs = refl

boot-boot_run :
    (w : World) (n r : Option Text)
    → fopen_read w nat ≡ n
    → fopen_read w rules ≡ r
    → boot w ≡ (boot_run n r >>= λ cmds. ok (after_run w cmds))
unfolding boot load_ruleset
boot-boot_run w none r hn hr =
    rw hn (rw hr (script_natd w none r hn hr ∙ same_run w (natd_run none) (script_run r)))
boot-boot_run w (some d) r hn hr = elim (Option-cases (divert_command none (fgets_all d))) [
  | inl e ↦ rw hn (rw e refl)
  | inr (cmd, e) ↦ rw hn (
      rw e (
        rw hr (
          script_natd (system w cmd) (some d) r hn hr
          ∙ behind w cmd (natd_run (some d)) (script_run r))))
]

after_run-cancel : (w : World) (xs ys : List Text) → after_run w xs ≡ after_run w ys → xs ≡ ys
after_run-cancel w xs ys e = append_cancel_left w.ran xs ys (ap (λ (v : World). v.ran) e)

-- A later start runs what the boot would have run, where the scripts were left.
pub boot-with_scripts :
    (w later : World) (cmds : List Text)
    → boot w ≡ ok (after_run w cmds)
    → boot (with_scripts w later) ≡ ok (after_run (with_scripts w later) cmds)
boot-with_scripts w later cmds e =
    let n = fopen_read w nat in
    let r = fopen_read w rules in
    let (ran, is_run, same) =
      >>=-eq-ok (boot_run n r) (λ cs. ok (after_run w cs))
        (sym (boot-boot_run w n r refl refl) ∙ e) in
    let which : ran ≡ cmds = after_run-cancel w ran cmds (ok-injective same) in
    boot-boot_run (with_scripts w later) n r refl refl
    ∙ ap (λ (m : Result (List Text)). m >>= λ cs. ok (after_run (with_scripts w later) cs))
        (is_run ∙ ap (λ (c : List Text). ok c) which)
