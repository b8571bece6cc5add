-- ===== src/Summary/Shown.antt =====
-- What the summary shows of a script of rule lines.
use closed_bsd.Base.{
  ℕ, zero, suc, ◌+◌, get_elem?, arith, ◌≡◌, refl, ap, ◌∙◌, false, true, some, List, [], ◌∷◌, ◌++◌,
  map, ltb, if◌then◌else◌, length, All, inl, inr, Bool-cases,
}
use closed_bsd.Boot.Replay.{fopen_read-eq-some}
use closed_bsd.Btree.{Btree}
use closed_bsd.Devices.Device.{Device, State}
use closed_bsd.Devices.Search.{records}
use closed_bsd.Fault.{ok}
use closed_bsd.Rules.Menu.Entries.{rule_line, script, IsTitle, chop-append, fgets_all-script}
use closed_bsd.Summary.{Row, device_rows, rule_rows, summary}
use closed_bsd.Text.Token.{token, token_whole, second_token, second_token-append}
use closed_bsd.Text.{Text, codes, contains, contains-append}
use closed_bsd.World.{World, rules}

-- A title without a q.
pub record IsPlain (t : Text) : Type 0 where
  pub title : IsTitle t
  pub no_q : contains b'q' t ≡ false

titles : (ts : List Text) → All IsPlain ts → All IsTitle ts
titles [] h = tt
titles (t ∷ ts) h = (h.0.title, titles ts h.1)

no_q-line : (t : Text) → contains b'q' t ≡ false → contains b'q' (t ++ codes "\n") ≡ false
unfolding contains
no_q-line t h = rw (contains-append b'q' t (codes "\n")) (rw h refl)

-- The second token of a line is the title with the newline behind it.
second_token-rule_line :
    (t : Text) → IsPlain t → second_token b'q' (rule_line t) ≡ some (t ++ codes "\n")
second_token-rule_line t h =
    let token_of : second_token b'q' (rule_line t) ≡ some (token b'q' (t ++ codes "\n")) =
      rw h.title.splits (
        second_token-append b'q' b'/' h.title.first (codes "sbin/ipfw -")
          (h.title.others ++ codes "\n") (unfold contains in refl) h.title.first_not_q) in
    token_of ∙ ap some (token_whole b'q' (t ++ codes "\n") (no_q-line t h.no_q))

-- The titles in one row after another, down to row 20.
abbrev pub numbered : ℕ → List Text → List (Row Text)
numbered f [] = []
numbered f (t ∷ ts) = let rest = numbered (f + 1) ts in if ltb f 21 then (f, t) ∷ rest else []

rule_rows-numbered :
    (f : ℕ) (ts : List Text) → All IsPlain ts → rule_rows f (map rule_line ts) ≡ ok (numbered f ts)
unfolding rule_rows
rule_rows-numbered f [] h = refl
rule_rows-numbered f (t ∷ ts) h = elim (Bool-cases (ltb f 21)) [
  | inl y ↦
      rw (y, rule_rows)
        (rw (second_token-rule_line t h.0)
          (rw (rule_rows-numbered (f + 1) ts h.1) (rw (chop-append t b'\n') refl)))
  | inr n ↦ rw (n, rule_rows) refl
]

length-device_rows : (i : ℕ) (m : List (ℕ × Device)) → length (device_rows i m) ≡ length m
unfolding device_rows
length-device_rows i [] = refl
length-device_rows i ((k, d) ∷ m) = omega (arith, length-device_rows (i + 1) m)

device_rows-get_elem? :
    (i : ℕ) (m : List (ℕ × Device)) (n k : ℕ) (d : Device)
    → get_elem? m n ≡ some (k, d)
    → get_elem? (device_rows i m) n ≡ some (i + n, (d.device, d.ip, d.netmask))
unfolding device_rows
device_rows-get_elem? i [] n k d e = cc
device_rows-get_elem? i ((j, c) ∷ m) zero k d e =
    let same : c ≡ d = cc in
    rw (← same) (ap (λ x. some (x, (c.device, c.ip, c.netmask))) (omega arith))
device_rows-get_elem? i ((j, c) ∷ m) (suc n) k d e =
    device_rows-get_elem? (i + 1) m n k d e
    ∙ ap (λ x. some (x, (d.device, d.ip, d.netmask))) (omega arith)

module _ (b : Btree Device) where
  -- For a database that can be read and a script that can be opened and holds rule lines whose
  -- titles have no q, the summary shows the devices in their order, one in each row from row 3
  -- on, with name, address and netmask, and the rules as they were entered from the fourth row
  -- below the devices down to row 20.
  pub summary-numbered :
      (s : State b) (w : World) (ts : List Text) {m : List (ℕ × Device)}
      → records b s ≡ ok m
      → w.opens rules ≡ true
      → w.content rules ≡ some (script ts)
      → All IsPlain ts
      → (rows : List (Row (Text × Text × Text))) × (summary b s w
          ≡ ok (rows, some (numbered (3 + length m + 4) ts)))
        × (length rows ≡ length m)
        × ((n k : ℕ) (d : Device)
            → get_elem? m n ≡ some (k, d)
            → get_elem? rows n ≡ some (3 + n, (d.device, d.ip, d.netmask)))
  unfolding summary
  summary-numbered s w ts {m} r o c h = (
    device_rows 3 m,
    rw
        (
          r,
          fopen_read-eq-some w rules o c,
          fgets_all-script ts (titles ts h),
          rule_rows-numbered (3 + length m + 4) ts h,
        )
        refl,
    length-device_rows 3 m,
    device_rows-get_elem? 3 m,
  )
