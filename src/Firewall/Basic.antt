-- ===== src/Firewall/Basic.antt =====
-- What the basic firewall leaves, and what the next boot makes of it.
use closed_bsd.Base.{
  ◌≤◌, ◌≡◌, refl, ap, ◌∙◌, true, false, none, some, List, [], ◌∷◌, ◌++◌, map, append_assoc, arith,
  length, length-append, take-eq_of_le, Bool, if◌then◌else◌, false, inr, lt→ltb,
}
use closed_bsd.Boot.Replay.{after_run, fopen_read-eq-some}
use closed_bsd.Boot.{boot, natset, natd_command, success}
use closed_bsd.Fault.{ok}
use closed_bsd.Firewall.{done, any_to_any, insert_any, insert_basic, write_nat, basic}
use closed_bsd.Nat.Reload.{IsName, divert_via, flush, load_ruleset-divert, enable_nat-Enabled}
use closed_bsd.Rules.Command.Bounds.{assembled, text_size}
use closed_bsd.Rules.Command.{opening, tail_pieces}
use closed_bsd.Rules.Ruleset.{Proto, ip, tcp, udp, icmp}
use closed_bsd.Rules.Script.Appends.{insert_rule-Appended}
use closed_bsd.Rules.Script.Contents.{IsCommand, lines, lines-append}
use closed_bsd.Rules.Script.{line}
use closed_bsd.Text.Lines.{fgets_all, fgets_all-last}
use closed_bsd.Text.{Text, codes, contains}
use closed_bsd.World.{World, File, rules, nat, same, or_empty, system, unlink, put}

abbrev pub proto_name : Proto → Text
proto_name ip = codes "ip"
proto_name tcp = codes "tcp"
proto_name udp = codes "udp"
proto_name icmp = codes "icmp"

-- The command that passes all packets of a protocol.
abbrev pub pass : Proto → Text
pass p = codes "/sbin/ipfw -q add allow " ++ (proto_name p ++ codes " from any to any")

pass-IsCommand : (p : Proto) → IsCommand (pass p)
unfolding contains
pass-IsCommand ip = record { no_newline = refl; short = omega arith }
pass-IsCommand tcp = record { no_newline = refl; short = omega arith }
pass-IsCommand udp = record { no_newline = refl; short = omega arith }
pass-IsCommand icmp = record { no_newline = refl; short = omega arith }

-- One more command in a script of commands.
record Passed (p : Proto) (cmds : List Text) (w w' : World) : Type 0 where
  script_is : w'.content rules ≡ some (lines (cmds ++ pass p ∷ []))
  others : (f : File) → same rules f ≡ false → w'.content f ≡ w.content f
  opens_same : w'.opens ≡ w.opens
  ran_is : w'.ran ≡ w.ran ++ (pass p ∷ codes "/sbin/chmod 744 /etc/rules" ∷ [])

assembled-pass :
    (p : Proto)
    → (o : Text) × (opening (any_to_any p).proto (any_to_any p).action ≡ ok o)
      × (assembled o (any_to_any p) ≡ pass p)
unfolding opening tail_pieces
assembled-pass ip = (_, refl, refl)
assembled-pass tcp = (_, refl, refl)
assembled-pass udp = (_, refl, refl)
assembled-pass icmp = (_, refl, refl)

any_short : (p : Proto) → text_size p (any_to_any p) ≤ 192
any_short ip = omega arith
any_short _ = omega arith

insert_any-Passed :
    (p : Proto) (cmds : List Text) (w : World)
    → w.opens rules ≡ true
    → or_empty (w.content rules) ≡ lines cmds
    → (w' : World) × (insert_any p w ≡ ok w') × Passed p cmds w w'
insert_any-Passed p cmds w h e =
    let (o, opened, text) = assembled-pass p in
    let (w', inserted, a) = insert_rule-Appended (any_to_any p) w opened (any_short p) h in
    (
      w',
      rw inserted refl,
      record {
        script_is = a.script_is ∙ rw (text, e) (ap some (lines-append cmds (pass p)));
        others = a.others;
        opens_same = a.opens_same;
        ran_is = rw (← text) a.ran_is;
      },
    )

abbrev pub basic_cmds : List Text
basic_cmds = pass ip ∷ pass tcp ∷ pass udp ∷ pass icmp ∷ []

-- Each rule is run, and the script made executable.
abbrev pub run_for : List Text → List Text
run_for [] = []
run_for (cmd ∷ cmds) = cmd ∷ codes "/sbin/chmod 744 /etc/rules" ∷ run_for cmds

insert_basic-Passed :
    (w : World)
    → w.opens rules ≡ true
    → w.content rules ≡ none
    → (w' : World) × (insert_basic w ≡ ok w')
      × (w'.content rules ≡ some (lines basic_cmds))
      × ((f : File) → same rules f ≡ false → w'.content f ≡ w.content f)
      × (w'.opens ≡ w.opens)
      × (w'.ran ≡ w.ran ++ run_for basic_cmds)
unfolding insert_basic
insert_basic-Passed w h e =
    let (w₁, r₁, a₁) = insert_any-Passed ip [] w h (ap or_empty e) in
    let (w₂, r₂, a₂) =
      insert_any-Passed tcp (pass ip ∷ []) w₁ (rw a₁.opens_same h) (ap or_empty a₁.script_is) in
    let (w₃, r₃, a₃) =
      insert_any-Passed udp (pass ip ∷ pass tcp ∷ []) w₂ (rw (a₂.opens_same, a₁.opens_same) h)
        (ap or_empty a₂.script_is) in
    let (w₄, r₄, a₄) =
      insert_any-Passed icmp (pass ip ∷ pass tcp ∷ pass udp ∷ []) w₃
        (rw (a₃.opens_same, a₂.opens_same, a₁.opens_same) h) (ap or_empty a₃.script_is) in
    (
      w₄,
      rw (r₁, r₂, r₃) r₄,
      a₄.script_is,
      (λ f n. a₄.others f n ∙ a₃.others f n ∙ a₂.others f n ∙ a₁.others f n),
      a₄.opens_same ∙ a₃.opens_same ∙ a₂.opens_same ∙ a₁.opens_same,
      rw (a₄.ran_is, a₃.ran_is, a₂.ran_is, a₁.ran_is) (simp append_assoc),
    )

-- What choosing the basic firewall leaves.
pub record Secured (device : Text) (save : Bool) (w w' : World) : Type 0 where
  pub rules_are : w'.content rules ≡ some (lines basic_cmds)
  pub nat_is : w'.content nat ≡ some device
  pub others : (f : File) → same rules f ≡ false → same nat f ≡ false → w'.content f ≡ w.content f
  pub opens_same : w'.opens ≡ w.opens
  pub ran_is :
      w'.ran
      ≡ w.ran
        ++ (flush
            ∷ (codes "/sbin/natd -n " ++ (device ++ codes "\n"))
            ∷ flush
            ∷ divert_via (device ++ codes "\n")
            ∷ (run_for basic_cmds
                ++ ((codes "/sbin/natd -n " ++ device)
                    ∷ (if save then codes "/sbin/writetcnp" ∷ [] else []))))

abbrev named : Text → Bool → World → World
named device save w =
    let w' =
      put (put (unlink (system w (codes "/sbin/natd -n " ++ device)) nat) nat []) nat device in
    if save then system w' (codes "/sbin/writetcnp") else w'

write_nat-named :
    (device : Text) (save : Bool) (w : World)
    → IsName device
    → w.opens nat ≡ true
    → write_nat device save w ≡ (named device save w, done)
unfolding write_nat
write_nat-named device save w d o =
    rw (o, take-eq_of_le 255 (codes "/sbin/natd -n " ++ device) (omega (arith, d.short))) refl

-- The commands that run before the second start of natd.
abbrev begun : Text → List Text
begun device =
    flush
    ∷ (codes "/sbin/natd -n " ++ (device ++ codes "\n"))
    ∷ flush
    ∷ divert_via (device ++ codes "\n")
    ∷ run_for basic_cmds

named-Secured :
    (device : Text) (save : Bool) (w w' : World)
    → w'.content rules ≡ some (lines basic_cmds)
    → ((f : File) → same rules f ≡ false → same nat f ≡ false → w'.content f ≡ w.content f)
    → w'.opens ≡ w.opens
    → w'.ran ≡ w.ran ++ begun device
    → Secured device save w (named device save w')
named-Secured device true w w' c o p r = record {
  rules_are = c;
  nat_is = refl;
  others = λ f e n. rw n (o f e n);
  opens_same = p;
  ran_is = rw r (simp append_assoc);
}
named-Secured device false w w' c o p r = record {
  rules_are = c;
  nat_is = refl;
  others = λ f e n. rw n (o f e n);
  opens_same = p;
  ran_is = rw r (simp append_assoc);
}

-- The basic firewall, for a device whose name has 3 to 5 bytes on one line, where both scripts
-- can be opened: the script holds the four rules that pass everything, /etc/nat names the device,
-- no other file changes, and what is run is, in this order, a flush, natd, a flush, the divert
-- rule, each of the four rules with the chmod of the script, natd, and the saving of the
-- configuration if the user asks for it.
pub basic-Secured :
    (device : Text) (save : Bool) (w : World)
    → IsName device
    → w.opens rules ≡ true
    → w.opens nat ≡ true
    → (w' : World) × (basic device save w ≡ ok (w', done)) × Secured device save w w'
unfolding basic
basic-Secured device save w d o p =
    let w₀ = system (unlink w rules) flush in
    let (w₁, enabled, e) = enable_nat-Enabled device [] w₀ d tt o p (inr (refl, refl)) in
    let (w₂, inserted, c, k, q, r) =
      insert_basic-Passed w₁ (rw e.opens_same o) (e.others rules refl) in
    (
      named device save w₂,
      rw (enabled, inserted, write_nat-named device save w₂ d (rw (q, e.opens_same) p)) refl,
      named-Secured device save w w₂ c (λ f e' n. k f e' ∙ e.others f n ∙ rw e' refl)
          (q ∙ e.opens_same) (r ∙ rw e.ran_is (simp append_assoc)),
    )

fgets_all-name : (device : Text) → IsName device → fgets_all device ≡ device ∷ []
fgets_all-name [] d = absurd (omega (arith, d.long))
fgets_all-name (c ∷ l) d = fgets_all-last c l d.no_newline (omega (arith, d.short))

natset-device :
    (device : Text) (w : World)
    → IsName device
    → w.opens nat ≡ true
    → w.content nat ≡ some device
    → natset w ≡ ok (system w (codes "/sbin/natd -n " ++ (device ++ codes "\n")), success)
unfolding natset natd_command
natset-device device w d o n =
    rw
      (
        fopen_read-eq-some w nat o n,
        fgets_all-name device d,
        lt→ltb 2 (length device) d.long,
        take-eq_of_le 255 (codes "/sbin/natd -n " ++ (device ++ codes "\n"))
            (omega (arith, d.short, length-append device (codes "\n"))),
      )
      refl

-- A boot behind the basic firewall: the divert rule of the device comes first, then the four rules
-- that pass everything, then natd is started on the device.
pub boot-basic :
    (device : Text) (save : Bool) (w : World)
    → IsName device
    → w.opens rules ≡ true
    → w.opens nat ≡ true
    → (w' : World) × (basic device save w ≡ ok (w', done))
      × (boot w'
          ≡ ok (
              after_run w' (
                divert_via device
                ∷ (map line basic_cmds
                    ++ ((codes "/sbin/natd -n " ++ (device ++ codes "\n")) ∷ [])))))
unfolding boot
boot-basic device save w d o p =
    let (w', secured, h) = basic-Secured device save w d o p in
    let loaded =
      load_ruleset-divert device device basic_cmds w' (omega (arith, d.short))
        (fgets_all-name device d)
        (pass-IsCommand ip, (pass-IsCommand tcp, (pass-IsCommand udp, (pass-IsCommand icmp, tt))))
        (rw h.opens_same o) (rw h.opens_same p) h.nat_is h.rules_are in
    let w₁ = after_run w' (divert_via device ∷ map line basic_cmds) in
    let started = natset-device device w₁ d (rw h.opens_same p) h.nat_is in
    (w', secured, rw loaded (rw started (ap ok (rw (append_assoc w'.ran) refl))))
