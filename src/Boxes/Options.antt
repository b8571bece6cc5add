-- ===== src/Boxes/Options.antt =====
-- The options box against the description of a box: the row marked is that of the rule's option.
use closed_bsd.Base.{
  ℕ, zero, suc, ◌+◌, ◌-◌, ◌≤◌, ◌≡◌, refl, List, [], ◌∷◌, arith, ◌==◌, if◌then◌else◌,
}
use closed_bsd.Boxes.Draw.{options_rows}
use closed_bsd.Boxes.Icmp
use closed_bsd.Boxes.Ip
use closed_bsd.Boxes.Marks.{box, row}
use closed_bsd.Boxes.Row.{Row}
use closed_bsd.Boxes.Tcp
use closed_bsd.Rules.Ruleset.{Proto, ip, tcp, udp, icmp}
use closed_bsd.Text.{Text, codes}

abbrev pub option_labels : Proto → List Text
option_labels tcp =
    codes "   Established   "
    ∷ codes "   Setup (SYN)   "
    ∷ codes "   Fragmented    "
    ∷ codes "   None          "
    ∷ []
option_labels ip =
    codes "   SSRR          "
    ∷ codes "   LSRR          "
    ∷ codes "   TS            "
    ∷ codes "   None          "
    ∷ []
option_labels icmp =
    codes "   Echo Request  "
    ∷ codes "   Dest. Unreach "
    ∷ codes "   Echo Reply    "
    ∷ codes "   None          "
    ∷ []
option_labels udp = []

-- The row of an option's value: TCP lists 2, 1, 3, 0, IP 1, 2, 3, 0 and ICMP 3, 2, 1, 0.
abbrev pub option_number : Proto → ℕ → ℕ
option_number tcp o = if o == 0 then 4 else if o == 1 then 2 else if o == 2 then 1 else 3
option_number ip o = if o == 0 then 4 else o
option_number icmp o = 4 - o
option_number udp o = 0

-- A UDP rule has no options to mark: the four rows are alike.
abbrev pub udp_rows : ℕ → ℕ → ℕ → List Row
udp_rows zero i lit = []
udp_rows (suc n) i lit = row (i == lit) (codes "No UDP options      ") ∷ udp_rows n (i + 1) lit

abbrev pub option_box : Proto → ℕ → ℕ → List Row
option_box udp lit o = udp_rows 4 1 lit
option_box p lit o = box 1 (option_labels p) lit (option_number p o)

abbrev pub OptionsAgree : Proto → ℕ → ℕ → Type 0
OptionsAgree p selected o = options_rows p selected o ≡ option_box p selected o

at_option : (P : ℕ → Type 0) → P 0 → P 1 → P 2 → P 3 → (o : ℕ) → o ≤ 3 → P o
at_option P a b c d zero h = a
at_option P a b c d (suc zero) h = b
at_option P a b c d (suc (suc zero)) h = c
at_option P a b c d (suc (suc (suc zero))) h = d
at_option P a b c d (suc (suc (suc (suc o)))) h = absurd (omega arith)

at_row : (P : ℕ → Type 0) → P 0 → P 1 → P 2 → P 3 → P 4 → (selected : ℕ) → selected ≤ 4 → P selected
at_row P a b c d e zero h = a
at_row P a b c d e (suc n) h = at_option (λ k. P (suc k)) b c d e n (omega arith)

-- An option box by the row that is lit, once it is known at each.
by_option :
    (p : Proto)
    → ((o : ℕ) → o ≤ 3 → OptionsAgree p 0 o)
    → ((o : ℕ) → o ≤ 3 → OptionsAgree p 1 o)
    → ((o : ℕ) → o ≤ 3 → OptionsAgree p 2 o)
    → ((o : ℕ) → o ≤ 3 → OptionsAgree p 3 o)
    → ((o : ℕ) → o ≤ 3 → OptionsAgree p 4 o)
    → (selected : ℕ) → selected ≤ 4
    → (o : ℕ) → o ≤ 3
    → OptionsAgree p selected o
by_option p = at_row (λ s. (o : ℕ) → o ≤ 3 → OptionsAgree p s o)

pub options_rows-box :
    (p : Proto) (selected : ℕ) → selected ≤ 4 → (o : ℕ) → o ≤ 3 → OptionsAgree p selected o
unfolding options_rows Tcp.none_lit Tcp.first_lit Tcp.second_lit Tcp.third_lit Tcp.fourth_lit
    Ip.none_lit Ip.first_lit Ip.second_lit Ip.third_lit Ip.fourth_lit Icmp.none_lit Icmp.first_lit
    Icmp.second_lit Icmp.third_lit Icmp.fourth_lit
options_rows-box tcp =
    by_option tcp (at_option _ refl refl refl refl) (at_option _ refl refl refl refl)
      (at_option _ refl refl refl refl) (at_option _ refl refl refl refl)
      (at_option _ refl refl refl refl)
options_rows-box ip =
    by_option ip (at_option _ refl refl refl refl) (at_option _ refl refl refl refl)
      (at_option _ refl refl refl refl) (at_option _ refl refl refl refl)
      (at_option _ refl refl refl refl)
options_rows-box icmp =
    by_option icmp (at_option _ refl refl refl refl) (at_option _ refl refl refl refl)
      (at_option _ refl refl refl refl) (at_option _ refl refl refl refl)
      (at_option _ refl refl refl refl)
options_rows-box udp =
    by_option udp (λ o h. refl) (λ o h. refl) (λ o h. refl) (λ o h. refl) (λ o h. refl)
