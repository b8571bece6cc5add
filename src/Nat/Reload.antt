-- ===== src/Nat/Reload.antt =====
-- What enabling and disabling NAT leave and run.
use closed_bsd.Base.{
  ◌≤◌, ◌≡◌, refl, ap, true, false, none, some, List, [], ◌∷◌, ◌++◌, map, append_assoc, arith,
  length, length-append, take-eq_of_le, All, ◌⊎◌, inl, inr, false,
}
use closed_bsd.Boot.Replay.{after_run, run_lines-ran, fopen_read-eq-some, fopen_read-eq-none}
use closed_bsd.Boot.{load_ruleset, divert_command, success, failure}
use closed_bsd.Fault.{ok}
use closed_bsd.Nat.{reload, natd, enable_nat, disable_nat}
use closed_bsd.Nat
use closed_bsd.Rules.Script.Contents.{IsCommand, lines, fgets_all-lines}
use closed_bsd.Rules.Script.{line}
use closed_bsd.Text.Lines.{fgets_all, fgets_all-line, chunks}
use closed_bsd.Text.{Text, codes, contains}
use closed_bsd.World.{World, File, rules, nat, same, system, unlink, put}

-- A name that fits in `char device[6]`.
pub record IsName (device : Text) : Type 0 where
  pub no_newline : contains b'\n' device ≡ false
  pub long : 3 ≤ length device
  pub short : length device ≤ 5

abbrev pub divert_via : Text → Text
divert_via buf = codes "/sbin/ipfw -q add 85 divert 8668 ip from any to any via " ++ buf

abbrev pub flush : Text
flush = codes "/sbin/ipfw -q flush"

-- `ruleset` runs the divert rule of the one line of the NAT script, and then the script.
pub load_ruleset-divert :
    (buf c : Text) (cmds : List Text) (w : World)
    → length buf ≤ 100
    → fgets_all c ≡ buf ∷ []
    → All IsCommand cmds
    → w.opens rules ≡ true
    → w.opens nat ≡ true
    → w.content nat ≡ some c
    → w.content rules ≡ some (lines cmds)
    → load_ruleset w ≡ ok (after_run w (divert_via buf ∷ map line cmds), success)
unfolding load_ruleset divert_command
load_ruleset-divert buf c cmds w b one h o p n r =
    rw
      (
        fopen_read-eq-some w nat p n,
        one,
        take-eq_of_le 255 (divert_via buf) (omega arith),
        fopen_read-eq-some (system w (divert_via buf)) rules o r,
        fgets_all-lines cmds h,
        run_lines-ran (map line cmds) (system w (divert_via buf)),
        append_assoc w.ran (divert_via buf ∷ []) (map line cmds),
      )
      refl

-- Without a script it runs the divert rule alone.
load_ruleset-divert_only :
    (buf c : Text) (w : World)
    → length buf ≤ 100
    → fgets_all c ≡ buf ∷ []
    → w.opens nat ≡ true
    → w.content nat ≡ some c
    → w.content rules ≡ none
    → load_ruleset w ≡ ok (after_run w (divert_via buf ∷ []), failure)
unfolding load_ruleset divert_command
load_ruleset-divert_only buf c w b one p n r =
    rw
      (
        fopen_read-eq-some w nat p n,
        one,
        take-eq_of_le 255 (divert_via buf) (omega arith),
        fopen_read-eq-none (system w (divert_via buf)) rules r,
      )
      refl

-- The script holds these commands, or there is no script and no command.
abbrev pub Holds : List Text → World → Type 0
Holds cmds w = (w.content rules ≡ some (lines cmds)) ⊎ ((w.content rules ≡ none) × (cmds ≡ []))

after_flush :
    (w : World) (ls : List Text) → after_run (system w flush) ls ≡ after_run w (flush ∷ ls)
after_flush w ls = rw (append_assoc w.ran (flush ∷ []) ls) refl

reload-divert :
    (buf c : Text) (cmds : List Text) (w : World)
    → length buf ≤ 100
    → fgets_all c ≡ buf ∷ []
    → All IsCommand cmds
    → w.opens rules ≡ true
    → w.opens nat ≡ true
    → w.content nat ≡ some c
    → Holds cmds w
    → reload w ≡ ok (after_run w (flush ∷ divert_via buf ∷ map line cmds))
unfolding reload
reload-divert buf c cmds w b one h o p n (inl s) =
    rw (load_ruleset-divert buf c cmds (system w flush) b one h o p n s)
      (ap ok (after_flush w (divert_via buf ∷ map line cmds)))
reload-divert buf c cmds w b one h o p n (inr (s, e)) =
    rw (load_ruleset-divert_only buf c (system w flush) b one p n s, e)
      (ap ok (after_flush w (divert_via buf ∷ [])))

-- What enabling NAT leaves: the script /etc/nat, the commands run, and all else as it was.
pub record Enabled (device : Text) (cmds : List Text) (w w' : World) : Type 0 where
  pub nat_is : w'.content nat ≡ some (device ++ codes "\n")
  pub others : (f : File) → same nat f ≡ false → w'.content f ≡ w.content f
  pub opens_same : w'.opens ≡ w.opens
  pub ran_is :
      w'.ran
      ≡ w.ran
        ++ ((codes "/sbin/natd -n " ++ (device ++ codes "\n"))
            ∷ flush
            ∷ divert_via (device ++ codes "\n")
            ∷ map line cmds)

fgets_all-device :
    (device : Text) → IsName device → fgets_all (device ++ codes "\n") ≡ (device ++ codes "\n") ∷ []
unfolding chunks
fgets_all-device device h = fgets_all-line device [] h.no_newline (omega (arith, h.short))

natd-whole :
    (device : Text) → IsName device → natd device ≡ codes "/sbin/natd -n " ++ (device ++ codes "\n")
natd-whole device h =
    take-eq_of_le 255 (codes "/sbin/natd -n " ++ (device ++ codes "\n"))
      (omega (arith, h.short, length-append device (codes "\n")))

-- Enabling NAT on a device, where both scripts can be opened and /etc/rules holds commands of one
-- line each (or is missing): /etc/nat names the device, natd is started, the filter is flushed, and
-- the divert rule and the commands of the script are run in this order.
pub enable_nat-Enabled :
    (device : Text) (cmds : List Text) (w : World)
    → IsName device
    → All IsCommand cmds
    → w.opens rules ≡ true
    → w.opens nat ≡ true
    → Holds cmds w
    → (w' : World) × (enable_nat device w ≡ ok (w', Nat.success)) × Enabled device cmds w w'
unfolding enable_nat
enable_nat-Enabled device cmds w d h o p s =
    let cmd = codes "/sbin/natd -n " ++ (device ++ codes "\n") in
    let w₁ = system (put (put (unlink w nat) nat []) nat (device ++ codes "\n")) cmd in
    let ls = flush ∷ divert_via (device ++ codes "\n") ∷ map line cmds in
    let reloaded =
      reload-divert (device ++ codes "\n") (device ++ codes "\n") cmds w₁
        (omega (arith, d.short, length-append device (codes "\n"))) (fgets_all-device device d) h o
        p refl s in
    (
      after_run w₁ ls,
      rw (p, natd-whole device d) (rw reloaded refl),
      record {
        nat_is = refl;
        others = λ f e. rw e refl;
        opens_same = refl;
        ran_is = append_assoc w.ran (cmd ∷ []) ls;
      },
    )

load_ruleset-lines :
    (cmds : List Text) (w : World)
    → All IsCommand cmds
    → w.opens rules ≡ true
    → w.content nat ≡ none
    → w.content rules ≡ some (lines cmds)
    → load_ruleset w ≡ ok (after_run w (map line cmds), success)
unfolding load_ruleset
load_ruleset-lines cmds w h o n r =
    rw
      (
        fopen_read-eq-none w nat n,
        fopen_read-eq-some w rules o r,
        fgets_all-lines cmds h,
        run_lines-ran (map line cmds) w,
      )
      refl

-- Disabling NAT, where the script can be opened and holds commands of one line each: /etc/nat is
-- gone, and the only commands run are the flush and those of the script, so that a natd that runs
-- is not stopped.
pub disable_nat-after_run :
    (cmds : List Text) (w : World)
    → All IsCommand cmds
    → w.opens rules ≡ true
    → w.content rules ≡ some (lines cmds)
    → disable_nat w ≡ ok (after_run (unlink w nat) (flush ∷ map line cmds))
unfolding disable_nat reload
disable_nat-after_run cmds w h o r =
    rw (load_ruleset-lines cmds (system (unlink w nat) flush) h o refl r)
      (ap ok (after_flush (unlink w nat) (map line cmds)))
