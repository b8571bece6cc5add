-- ===== src/Rules/Raw/RoundTrip.antt =====
-- A rule that `__insert_rule` appends, dropped again by `raw_drop_rule` (closedbsd/config/rules.c).
use closed_bsd.Base.{
  ◌+◌, ◌≤◌, ◌≡◌, refl, ap, ◌∙◌, true, some, List, [], ◌∷◌, ◌++◌, map, length, erase_idx, All,
  All-append,
}
use closed_bsd.Fault.{ok}
use closed_bsd.Rules.Command.Bounds.{text_size, assembled}
use closed_bsd.Rules.Command.{opening}
use closed_bsd.Rules.Raw.Copy.{raw_drop_rule-Replaced}
use closed_bsd.Rules.Raw.{raw_drop_rule}
use closed_bsd.Rules.Raw
use closed_bsd.Rules.Ruleset.{Ruleset}
use closed_bsd.Rules.Script.Appends.{insert_rule-Appended}
use closed_bsd.Rules.Script.Contents.{IsCommand, lines, fgets_all-lines, lines-append}
use closed_bsd.Rules.Script.{insert_rule, line}
use closed_bsd.Rules.Script
use closed_bsd.Text.{Text}
use closed_bsd.World.{World, rules, tmp_rules, nat, dhclient_conf}

erase_idx-last :
    (cmds : List Text) (cmd : Text)
    → erase_idx (map line (cmds ++ cmd ∷ [])) (length cmds) ≡ map line cmds
erase_idx-last [] cmd = refl
erase_idx-last (c ∷ cmds) cmd = ap (λ (ls : List Text). line c ∷ ls) (erase_idx-last cmds cmd)

-- A rule that has a command, with texts of at most 192 bytes and a command of one line that fits
-- in the buffer, is inserted into a script of such commands, where the script and its copy can be
-- opened: dropping the last line by its number gives the script that was there before, /etc/nat
-- and /etc/dhclient.conf are as they were, and the dropping runs nothing. What stood in
-- /tmp/rules is lost.
pub raw_drop_rule-insert_rule :
    (r : Ruleset) (cmds : List Text) (w : World) {o : Text}
    → opening r.proto r.action ≡ ok o
    → text_size r.proto r ≤ 192
    → IsCommand (assembled o r)
    → All IsCommand cmds
    → w.opens rules ≡ true
    → w.opens tmp_rules ≡ true
    → w.content rules ≡ some (lines cmds)
    → (w₁ : World) × (w₂ : World) × (insert_rule r w ≡ ok (w₁, Script.success))
      × (raw_drop_rule (length cmds + 1) w₁ ≡ ok (w₂, Raw.success))
      × (w₂.content rules ≡ w.content rules)
      × (w₂.content nat ≡ w.content nat)
      × (w₂.content dhclient_conf ≡ w.content dhclient_conf)
      × (w₂.ran ≡ w₁.ran)
raw_drop_rule-insert_rule r cmds w {o} e n i h p q c =
    let cmd = assembled o r in
    let (w₁, inserted, a) = insert_rule-Appended r w e n p in
    let now = a.script_is ∙ rw c (ap some (lines-append cmds cmd)) in
    let (w₂, dropped, d) =
      raw_drop_rule-Replaced (length cmds) (lines (cmds ++ cmd ∷ [])) w₁ (rw a.opens_same q)
        (rw a.opens_same p) now in
    (
      w₁,
      w₂,
      inserted,
      dropped,
      d.script_is
          ∙ rw (fgets_all-lines (cmds ++ cmd ∷ []) (All-append IsCommand cmds (cmd ∷ []) h (i, tt)))
              (rw (erase_idx-last cmds cmd, c) refl),
      d.nat_same ∙ a.others nat refl,
      d.dhclient_conf_same ∙ a.others dhclient_conf refl,
      d.ran_same,
    )
