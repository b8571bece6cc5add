-- ===== src/Rules/Raw/Copy.antt =====
-- What `raw_drop_rule` leaves of the script.
use closed_bsd.Base.{
  ℕ, zero, suc, ◌+◌, ◌<◌, ◌≡◌, refl, ap, ◌∙◌, true, false, List, [], ◌∷◌, ◌++◌, append-nil,
  append_assoc, none, some, arith, ◌==◌, if◌then◌else◌, erase_idx, Bool-cases, inl, inr,
}
use closed_bsd.Fault.{ok}
use closed_bsd.Rules.Raw.{success, copy_but, copy_back, write_back, with_tmp, raw_drop_rule}
use closed_bsd.Text.Cat.{join}
use closed_bsd.Text.Lines.{fgets_all, join-fgets_all}
use closed_bsd.Text.{Text}
use closed_bsd.World.{World, File, rules, nat, tmp_rules, dhclient_conf, same, put, unlink}

-- The lines that the copy holds.
abbrev kept : ℕ → ℕ → List Text → List Text
kept i line [] = []
kept i line (buf ∷ bufs) =
    let rest = kept (i + 1) line bufs in if i == line then rest else buf ∷ rest

kept_past : (i line : ℕ) (bufs : List Text) → line < i → kept i line bufs ≡ bufs
kept_past i line [] h = refl
kept_past i line (buf ∷ bufs) h = ground (arith, kept_past (i + 1) line bufs)

kept-erase_idx :
    (i line k : ℕ) (bufs : List Text) → line ≡ i + k → kept i line bufs ≡ erase_idx bufs k
kept-erase_idx i line k [] e = refl
kept-erase_idx i line zero (buf ∷ bufs) e = ground (arith, kept_past (i + 1) line bufs)
kept-erase_idx i line (suc k) (buf ∷ bufs) e = ground (arith, kept-erase_idx (i + 1) line k bufs)

-- File `f` grew by `t`, and nothing else changed.
record Grew (f : File) (t : Text) (w w' : World) : Type 0 where
  grown : (c : Text) → w.content f ≡ some c → w'.content f ≡ some (c ++ t)
  others : (g : File) → same f g ≡ false → w'.content g ≡ w.content g
  ran_same : w'.ran ≡ w.ran
  opens_same : w'.opens ≡ w.opens

Grew-nil : (f : File) (w : World) → Grew f [] w w
Grew-nil f w = record {
  grown = λ c e. rw (append-nil c) e;
  others = λ g e. refl;
  ran_same = refl;
  opens_same = refl;
}

Grew-trans :
    {f : File} {s t : Text} {u v w : World} → Grew f s u v → Grew f t v w → Grew f (s ++ t) u w
Grew-trans {f} {s} {t} g h = record {
  grown = λ c e. rw (← append_assoc c s t) (h.grown (c ++ s) (g.grown c e));
  others = λ k e. h.others k e ∙ g.others k e;
  ran_same = h.ran_same ∙ g.ran_same;
  opens_same = h.opens_same ∙ g.opens_same;
}

copy_but-Grew :
    (i line : ℕ) (bufs : List Text) (w : World)
    → Grew tmp_rules (join (kept i line bufs)) w (copy_but i line bufs w)
unfolding copy_but
copy_but-Grew i line [] w = Grew-nil tmp_rules w
copy_but-Grew i line (buf ∷ bufs) w = elim (Bool-cases (i == line)) [
  | inl e ↦ rw e (copy_but-Grew (i + 1) line bufs w)
  | inr e ↦ rw e (
      Grew-trans
        (record {
          grown = λ c h. rw h refl;
          others = λ g h. rw h refl;
          ran_same = refl;
          opens_same = refl;
        })
        (copy_but-Grew (i + 1) line bufs _))
]

copy_back-Grew : (bufs : List Text) (w : World) → Grew rules (join bufs) w (copy_back bufs w)
unfolding copy_back
copy_back-Grew [] w = Grew-nil rules w
copy_back-Grew (buf ∷ bufs) w =
    Grew-trans
      (record {
        grown = λ c h. rw h refl;
        others = λ g h. rw h refl;
        ran_same = refl;
        opens_same = refl;
      })
      (copy_back-Grew bufs _)

-- The script is replaced by `t`, the copy is gone, and all else is as it was.
pub record Replaced (t : Text) (w w' : World) : Type 0 where
  pub script_is : w'.content rules ≡ some t
  pub tmp_gone : w'.content tmp_rules ≡ none
  pub nat_same : w'.content nat ≡ w.content nat
  pub dhclient_conf_same : w'.content dhclient_conf ≡ w.content dhclient_conf
  pub ran_same : w'.ran ≡ w.ran

write_back_opened :
    (w : World) (t : Text)
    → w.opens tmp_rules ≡ true
    → w.opens rules ≡ true
    → w.content tmp_rules ≡ some t
    → write_back w
      ≡ (unlink (copy_back (fgets_all t) (put (unlink w rules) rules [])) tmp_rules, success)
unfolding write_back
write_back_opened w t o p c = rw (o, write_back) (rw (c, write_back) (rw (p, write_back) refl))

write_back-Replaced :
    (w : World) (t : Text)
    → w.opens tmp_rules ≡ true
    → w.opens rules ≡ true
    → w.content tmp_rules ≡ some t
    → (w' : World) × (write_back w ≡ (w', success)) × Replaced t w w'
write_back-Replaced w t o p c =
    let g = copy_back-Grew (fgets_all t) (put (unlink w rules) rules []) in
    (
      _,
      write_back_opened w t o p c,
      record {
        script_is = g.grown [] refl ∙ ap some (join-fgets_all t);
        tmp_gone = refl;
        nat_same = g.others nat refl;
        dhclient_conf_same = g.others dhclient_conf refl;
        ran_same = g.ran_same;
      },
    )

-- Where both files can be opened, dropping number k + 1 takes from /etc/rules the piece k + 1 of
-- those that fgets reads, which are its lines, but for a line of more than 255 bytes, which is
-- several pieces. No other byte is lost, past the end nothing is; the copy /tmp/rules is removed,
-- no other file changes, and nothing is run.
pub raw_drop_rule-Replaced :
    (k : ℕ) (c : Text) (w : World)
    → w.opens tmp_rules ≡ true
    → w.opens rules ≡ true
    → w.content rules ≡ some c
    → (w' : World) × (raw_drop_rule (k + 1) w ≡ ok (w', success))
      × Replaced (join (erase_idx (fgets_all c) k)) w w'
unfolding raw_drop_rule
raw_drop_rule-Replaced k c w o p e =
    let w₁ = put (unlink w tmp_rules) tmp_rules [] in
    let g = copy_but-Grew 1 (k + 1) (fgets_all c) w₁ in
    let copied = kept-erase_idx 1 (k + 1) k (fgets_all c) (omega arith) in
    let (w', r, h) =
      write_back-Replaced (copy_but 1 (k + 1) (fgets_all c) w₁) (join (erase_idx (fgets_all c) k))
        (rw g.opens_same o) (rw g.opens_same p)
        (g.grown [] refl ∙ ap (λ ls. some (join ls)) copied) in
    (
      w',
      rw (o, with_tmp) (rw (p, with_tmp) (rw (e, with_tmp) (ap ok r))),
      record {
        script_is = h.script_is;
        tmp_gone = h.tmp_gone;
        nat_same = h.nat_same ∙ g.others nat refl;
        dhclient_conf_same = h.dhclient_conf_same ∙ g.others dhclient_conf refl;
        ran_same = h.ran_same ∙ g.ran_same;
      },
    )
