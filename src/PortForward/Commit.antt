-- ===== src/PortForward/Commit.antt =====
-- The forward that the form inserts, and what holds through the whole loop.
use closed_bsd.Base.{
  ℕ, ◌≤◌, ◌≡◌, refl, inl, inr, true, false, List, [], ◌∷◌, arith, ◌==◌, length-take, All,
  Bool-cases,
}
use mathlib.Core.Path.{subst}
use closed_bsd.Fault.{Result, ok, ok-injective, >>=-eq-ok, ◌>>=◌}
use closed_bsd.Keyboard.{
  Edit, Key, key_down, key_left, key_right, key_up, space_bar, enter, tabulator, other,
}
use closed_bsd.PortForward.Down.{Stop, at_key, in_field}
use closed_bsd.PortForward.Loop.{
  Outcome, going, added, cancelled, entered, moved, on_enter, press, resume, run, left, right,
  space, reported,
}
use closed_bsd.PortForward.Sound.{
  IsSound, IsLine, IsPlace, StopIsSound, down-IsSound, up-IsSound, left-IsSound, right-IsSound,
  space-IsSound,
}
use closed_bsd.PortForward.{Form}
use closed_bsd.Rules.Command.Forward.{fwd_text}
use closed_bsd.Rules.Command.FwdBounds.{fwd_size}
use closed_bsd.Rules.Script.Appends.{Refused, insert_rule-Refused}
use closed_bsd.Rules.Script.Forwards.{Forwarded, insert_rule-Forwarded}
use closed_bsd.Rules.Script.{Ret, success, failure, insert_rule}
use closed_bsd.World.{World, rules}

entered-size : (f : Form) → IsSound f → fwd_size (entered f) ≤ 192
unfolding entered
entered-size f h = omega (
  arith,
  h.src_short,
  h.dst_short,
  h.forw_short,
  h.src_port_short,
  h.dst_port_short,
  h.forw_port_short,
  length-take 127 f.src,
  length-take 127 f.dst,
  length-take 4 f.src_port,
  length-take 4 f.dst_port,
  length-take 255 f.forw,
  length-take 255 f.forw_port,
)

-- Return at OK, with a script that can be opened: the form returns, and the whole command of the
-- forward is in the script and has been run.
pub press-Forwarded :
    (edits : List Edit) (f : Form) (w : World)
    → IsSound f
    → w.opens rules ≡ true
    → (w' : World) × (press enter edits 9 f w ≡ ok (added w'))
      × Forwarded (fwd_text (entered f)) w w'
unfolding press on_enter entered
press-Forwarded edits f w h o =
    let (w', inserted, forwarded) =
      insert_rule-Forwarded (entered f) w h.forwards h.has_ports (entered-size f h) o in
    (w', rw inserted refl, forwarded)

-- Return at OK, with a script that cannot be opened: the user stays at OK, with the rule kept, and
-- nothing is written or run.
pub press-Refused_forward :
    (edits : List Edit) (f : Form) (w : World)
    → w.opens rules ≡ false
    → (w' : World) × (press enter edits 9 f w
        ≡ ok (going (at_key 9 (record f { rule = entered f }) edits) w'))
      × Refused w w'
unfolding press on_enter
press-Refused_forward edits f w c =
    let (w', refused, same) = insert_rule-Refused (entered f) w (inl c) in
    (w', rw refused refl, same)

-- What holds of the form where the loop is left in it.
abbrev pub OutcomeIsSound : Outcome → Type 0
OutcomeIsSound (going s w) = StopIsSound s
OutcomeIsSound (added w) = Unit
OutcomeIsSound (cancelled w) = Unit

reported-IsSound :
    (edits : List Edit) (f : Form) (r : World × Ret)
    → IsSound f
    → All IsLine edits
    → OutcomeIsSound (reported edits f r)
reported-IsSound edits f (w, success) h l = tt
reported-IsSound edits f (w, failure) h l = (ground arith, h, l)

entered-IsSound : (f : Form) → IsSound f → IsSound (record f { rule = entered f })
unfolding entered
entered-IsSound f h = ground arith

enter-IsSound :
    (edits : List Edit) (p : ℕ) (f : Form) (w : World) {o : Outcome}
    → IsPlace p
    → IsSound f
    → All IsLine edits
    → on_enter edits p f w ≡ ok o
    → OutcomeIsSound o
unfolding on_enter
enter-IsSound edits p f w q h l e = elim (Bool-cases (p == 9)) [
  | inl a ↦
      let (r, inserted, e') =
        >>=-eq-ok (insert_rule (entered f) w)
          (λ (r : World × Ret). ok (reported edits (record f { rule = entered f }) r))
          (rw (a, on_enter) at e) in
      subst OutcomeIsSound (ok-injective e')
        (reported-IsSound edits (record f { rule = entered f }) r (entered-IsSound f h) l)
  | inr a ↦ elim (Bool-cases (p == 10)) [
    | inl c ↦ subst OutcomeIsSound (ok-injective (rw c at (rw (a, on_enter) at e))) tt
    | inr c ↦ subst OutcomeIsSound (ok-injective (rw c at (rw (a, on_enter) at e))) (q, h, l)
  ]
]

going-IsSound :
    (m : Result Stop) (w : World) {o : Outcome}
    → ((t : Stop) → m ≡ ok t → StopIsSound t)
    → (m >>= λ t. ok (going t w)) ≡ ok o
    → OutcomeIsSound o
going-IsSound m w h e =
    let (t, stops, e') = >>=-eq-ok m (λ t. ok (going t w)) e in
    subst OutcomeIsSound (ok-injective e') (h t stops)

moved-IsSound :
    (edits : List Edit) (w : World) (q : ℕ × Form) {o : Outcome}
    → IsPlace q.0 × IsSound q.1
    → All IsLine edits
    → moved edits w q ≡ ok o
    → OutcomeIsSound o
moved-IsSound edits w (p, f) h l e = subst OutcomeIsSound (ok-injective e) (h.0, h.1, l)

IsPlace-bounds : (p : ℕ) → IsPlace p → (1 ≤ p) × (p ≤ 10)
IsPlace-bounds p q = ground arith

press-IsSound :
    (k : Key) (edits : List Edit) (p : ℕ) (f : Form) (w : World) {o : Outcome}
    → IsPlace p
    → IsSound f
    → All IsLine edits
    → press k edits p f w ≡ ok o
    → OutcomeIsSound o
unfolding press
press-IsSound key_down edits p f w q h l e =
    let (a, b) = IsPlace-bounds p q in going-IsSound _ w (λ t. down-IsSound edits p f a b h l) e
press-IsSound key_up edits p f w q h l e = going-IsSound _ w (λ t. up-IsSound edits p f q h l) e
press-IsSound key_left edits p f w q h l e =
    moved-IsSound edits w (left p f) (left-IsSound p f q h) l e
press-IsSound key_right edits p f w q h l e =
    moved-IsSound edits w (right p f) (right-IsSound p f q h) l e
press-IsSound space_bar edits p f w q h l e =
    moved-IsSound edits w (p, space p f) (q, space-IsSound p f h) l e
press-IsSound enter edits p f w q h l e = enter-IsSound edits p f w q h l e
press-IsSound tabulator edits p f w q h l e = moved-IsSound edits w (p, f) (q, h) l e
press-IsSound other edits p f w q h l e = moved-IsSound edits w (p, f) (q, h) l e

resume-IsSound :
    (o : Outcome) (rounds : List Edit → ℕ → Form → World → Result Outcome) {r : Outcome}
    → OutcomeIsSound o
    → ((edits : List Edit) (p : ℕ) (f : Form) (w : World)
        → IsPlace p
        → IsSound f
        → All IsLine edits
        → rounds edits p f w ≡ ok r
        → OutcomeIsSound r)
    → resume o rounds ≡ ok r
    → OutcomeIsSound r
resume-IsSound (going (at_key p f edits) w) rounds h next e = next edits p f w h.0 h.1 h.2 e
resume-IsSound (going (in_field p f) w) rounds h next e = subst OutcomeIsSound (ok-injective e) h
resume-IsSound (added w) rounds h next e = subst OutcomeIsSound (ok-injective e) tt
resume-IsSound (cancelled w) rounds h next e = subst OutcomeIsSound (ok-injective e) tt

-- From a sound form at one of the four places, whatever keys the user presses and whatever lines
-- of at most 33 bytes he edits: where the loop is left in the form, the cursor is at one of the
-- four places or in a field that waits for its line, the rule is a forward of TCP or UDP, the box
-- marks its protocol, and the addresses are at most 33 and the ports at most 4 bytes long.
pub forward_run-IsSound :
    (ks : List Key) (edits : List Edit) (p : ℕ) (f : Form) (w : World) {o : Outcome}
    → IsPlace p
    → IsSound f
    → All IsLine edits
    → run ks edits p f w ≡ ok o
    → OutcomeIsSound o
unfolding run
forward_run-IsSound [] edits p f w q h l e = subst OutcomeIsSound (ok-injective e) (q, h, l)
forward_run-IsSound (k ∷ ks) edits p f w q h l e =
    let (o, pressed, rest) = >>=-eq-ok (press k edits p f w) (λ o. resume o (run ks)) e in
    resume-IsSound o (run ks) (press-IsSound k edits p f w q h l pressed)
      (λ more r g v. forward_run-IsSound ks more r g v) rest
