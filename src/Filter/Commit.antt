-- ===== src/Filter/Commit.antt =====
-- The rule that the form inserts when the user presses return at the button OK.
use closed_bsd.Base.{
  ℕ, ◌≤◌, ◌≡◌, refl, ap, ◌∙◌, ◌⊎◌, inl, inr, true, false, not, ◌&&◌, List, [], ◌∷◌, arith, ltb,
  ◌==◌, length, length-take, All, Bool-cases,
}
use closed_bsd.Keyboard.{
  Edit, Key, key_down, key_left, key_right, key_up, space_bar, enter, tabulator, other,
}
use closed_bsd.Fault.{Result, ok, >>=-eq-ok, ◌>>=◌}
use closed_bsd.Filter.Down.{Stop, at_key, in_field}
use mathlib.Core.Path.{subst}
use closed_bsd.Filter.Form.{Form}
use closed_bsd.Filter.Keys.{entered, host_of, port_of, left, right, tab, space}
use closed_bsd.Filter.Loop.{on_enter, moved, Outcome, going, added, cancelled, press, run, resume}
use closed_bsd.Filter.Sound.{
  IsSound, IsOffered, IsLine, StopIsSound, down-IsSound, up-IsSound, left-IsSound, right-IsSound,
  tab-IsSound, space-IsSound,
}
use closed_bsd.Rules.Command.Bounds.{other_size, text_size, assembled}
use closed_bsd.Rules.Command.{opening}
use closed_bsd.Rules.Ruleset.{
  Action, allow, deny, divert, fwd, reset, Proto, ip, tcp, udp, icmp, is_reset, is_tcp,
}
use closed_bsd.Rules.Script.Appends.{Appended, Refused, insert_rule-Appended, insert_rule-Refused}
use closed_bsd.Rules.Script.{Ret, success, failure, insert_rule}
use closed_bsd.Text.{Text, codes, snprintf, starts_with, length-snprintf}
use closed_bsd.World.{World, rules}

length-host_of : (s : Text) → length s ≤ 33 → length (host_of s) ≤ 33
length-host_of s h =
    let short : length (snprintf 128 s) ≤ 33 = omega (arith, h, length-take 127 s) in
    elim (Bool-cases (ltb (length (snprintf 128 s)) 1)) [
      | inl e ↦ rw e (omega arith)
      | inr e ↦ rw e short
    ]

length-port_of : (s : Text) → length (port_of s) ≤ 4
length-port_of s = elim (Bool-cases (starts_with (codes "any") s)) [
  | inl e ↦ rw e (omega arith)
  | inr e ↦ rw e (length-snprintf 4 s)
]

-- Each action that the form offers has a command, but RESET only for TCP.
opening_offered :
    (p : Proto) (a : Action)
    → IsOffered a
    → (is_reset a && not (is_tcp p)) ≡ false
    → (o : Text) × (opening p a ≡ ok o)
unfolding opening
opening_offered ip allow h g = (_, refl)
opening_offered ip deny h g = (_, refl)
opening_offered tcp allow h g = (_, refl)
opening_offered tcp deny h g = (_, refl)
opening_offered tcp reset h g = (_, refl)
opening_offered udp allow h g = (_, refl)
opening_offered udp deny h g = (_, refl)
opening_offered icmp allow h g = (_, refl)
opening_offered icmp deny h g = (_, refl)
opening_offered p divert h g = absurd h
opening_offered p fwd h g = absurd h
opening_offered _ reset h g = cc

other_size-le : (p : Proto) (s : Text) → (p ≡ ip → length s ≤ 118) → other_size p s ≤ 118
other_size-le ip s h = h refl
other_size-le _ s h = omega arith

entered-size :
    {junk : Text} (f : Form)
    → IsSound junk f
    → (f.rule.proto ≡ ip → length junk ≤ 118)
    → text_size (entered f).proto (entered f) ≤ 192
unfolding entered
entered-size {junk} f h j =
    let other : other_size f.rule.proto f.rule.other_a ≤ 118 =
      rw h.unwritten (other_size-le f.rule.proto junk j) in
    omega (
      arith,
      other,
      length-host_of f.src h.src_short,
      length-host_of f.dst h.dst_short,
      length-port_of f.src_port,
      length-port_of f.dst_port,
    )

pub press-Appended :
    {junk : Text} (edits : List Edit) (f : Form) (w : World)
    → IsSound junk f
    → (f.rule.proto ≡ ip → length junk ≤ 118)
    → (is_reset f.rule.action && not (is_tcp f.rule.proto)) ≡ false
    → w.opens rules ≡ true
    → (o : Text) × (w' : World) × (press enter edits 12 f w ≡ ok (added w' success))
      × (opening f.rule.proto f.rule.action ≡ ok o)
      × Appended (assembled o (entered f)) w w'
unfolding press entered
press-Appended edits f w h j g p =
    let (o, has) = opening_offered f.rule.proto f.rule.action h.offered g in
    let (w', done, appended) = insert_rule-Appended (entered f) w has (entered-size f h j) p in
    (o, w', rw done refl, has, appended)

-- Return at OK, on a rule that RESETs a protocol other than TCP or with a script that cannot be
-- opened: nothing is written or run, and yet the form returns as if the rule had been added.
pub press-Refused :
    (edits : List Edit) (f : Form) (w : World)
    → (w.opens rules ≡ false) ⊎ ((is_reset f.rule.action && not (is_tcp f.rule.proto)) ≡ true)
    → (w' : World) × (press enter edits 12 f w ≡ ok (added w' failure)) × Refused w w'
unfolding press entered
press-Refused edits f w h =
    let (w', done, refused) = insert_rule-Refused (entered f) w h in (w', rw done refl, refused)

moved-IsSound :
    {junk : Text} (edits : List Edit) (q : ℕ × Form) {s : Stop}
    → IsSound junk q.1
    → All IsLine edits
    → moved edits q ≡ ok (going s)
    → StopIsSound junk s
moved-IsSound {junk} edits (q, f) {s} h l e =
    let same : at_key q f edits ≡ s = cc in subst (StopIsSound junk) same (h, l)

going-IsSound :
    {junk : Text} (m : Result Stop) {s : Stop}
    → ((t : Stop) → m ≡ ok t → StopIsSound junk t)
    → (m >>= λ t. ok (going t)) ≡ ok (going s)
    → StopIsSound junk s
going-IsSound {junk} m {s} h e =
    let (t, stops, e') = >>=-eq-ok m (λ t. ok (going t)) e in
    let same : t ≡ s = cc in subst (StopIsSound junk) same (h t stops)

enter-IsSound :
    {junk : Text} (edits : List Edit) (p : ℕ) (f : Form) (w : World) {s : Stop}
    → IsSound junk f
    → All IsLine edits
    → on_enter edits p f w ≡ ok (going s)
    → StopIsSound junk s
unfolding on_enter
enter-IsSound edits p f w {s} h l e = elim (Bool-cases (p == 12)) [
  | inl a ↦
      let (r, inserted, e') =
        >>=-eq-ok (insert_rule (entered f) w) (λ (r : World × Ret). ok (added r.0 r.1))
          (rw (a, on_enter) at e) in
      cc
  | inr a ↦ elim (Bool-cases (p == 13)) [
    | inl b ↦ let e' = rw b at (rw (a, on_enter) at e) in cc
    | inr b ↦ moved-IsSound edits (p, f) h l (rw b at (rw (a, on_enter) at e))
  ]
]

press-IsSound :
    {junk : Text} (k : Key) (edits : List Edit) (p : ℕ) (f : Form) (w : World) {s : Stop}
    → IsSound junk f
    → All IsLine edits
    → press k edits p f w ≡ ok (going s)
    → StopIsSound junk s
unfolding press
press-IsSound key_down edits p f w h l e = going-IsSound _ (λ t. down-IsSound edits p f h l) e
press-IsSound key_up edits p f w h l e = going-IsSound _ (λ t. up-IsSound edits p f h l) e
press-IsSound key_left edits p f w h l e = moved-IsSound edits (left p f) (left-IsSound p f h) l e
press-IsSound key_right edits p f w h l e =
    moved-IsSound edits (right p f) (right-IsSound p f h) l e
press-IsSound tabulator edits p f w h l e = moved-IsSound edits (tab p f) (tab-IsSound p f h) l e
press-IsSound space_bar edits p f w h l e =
    moved-IsSound edits (p, space p f) (space-IsSound p f h) l e
press-IsSound other edits p f w h l e = moved-IsSound edits (p, f) h l e
press-IsSound enter edits p f w h l e = enter-IsSound edits p f w h l e

resume-IsSound :
    {junk : Text} (o : Outcome) (rounds : List Edit → ℕ → Form → World → Result Outcome) (w : World)
    {s : Stop}
    → ((t : Stop) → o ≡ going t → StopIsSound junk t)
    → ((edits : List Edit) (p : ℕ) (f : Form)
        → IsSound junk f
        → All IsLine edits
        → rounds edits p f w ≡ ok (going s)
        → StopIsSound junk s)
    → resume o rounds w ≡ ok (going s)
    → StopIsSound junk s
resume-IsSound (going (at_key p f edits)) rounds w h next e =
    let (sound, lines) = h (at_key p f edits) refl in next edits p f sound lines e
resume-IsSound {junk} (going (in_field p f)) rounds w {s} h next e =
    let same : in_field p f ≡ s = cc in subst (StopIsSound junk) same (h (in_field p f) refl)
resume-IsSound (added w' r) rounds w h next e = cc
resume-IsSound cancelled rounds w h next e = cc

-- From a sound form at any cursor, whatever keys the user presses and whatever lines of at most 33
-- bytes he edits: a form that the loop is left with shows the rule it holds in every box, has an
-- action that the form offers and an option within the four that exist, has addresses of at most
-- 33 and ports of at most 4 bytes, and has never written `other_a`.
pub run-IsSound :
    {junk : Text} (ks : List Key) (edits : List Edit) (p : ℕ) (f : Form) (w : World) {s : Stop}
    → IsSound junk f
    → All IsLine edits
    → run ks edits p f w ≡ ok (going s)
    → StopIsSound junk s
unfolding run
run-IsSound {junk} [] edits p f w {s} h l e =
    let same : at_key p f edits ≡ s = cc in subst (StopIsSound junk) same (h, l)
run-IsSound (k ∷ ks) edits p f w h l e =
    let (o, pressed, rest) = >>=-eq-ok (press k edits p f w) (λ o. resume o (run ks) w) e in
    resume-IsSound o (run ks) w
      (λ t going_on. press-IsSound k edits p f w h l (pressed ∙ ap ok going_on))
      (λ more q g sound lines. run-IsSound ks more q g w sound lines) rest
