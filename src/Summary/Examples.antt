-- ===== src/Summary/Examples.antt =====
-- The summary of one device and one rule.
use closed_bsd.Base.{ℕ, ◌+◌, List, length, get_elem?, ◌≡◌, refl, some, true, [], ◌∷◌, arith}
use closed_bsd.Devices.Listed.{listed, state, outer}
use closed_bsd.Devices.Device.{Device}
use closed_bsd.Devices.Search.{records}
use closed_bsd.Fault.{ok}
use closed_bsd.Rules.Menu.Entries.{script}
use closed_bsd.Summary.Shown.{IsPlain, numbered, summary-numbered}
use closed_bsd.Summary.{Row, summary}
use closed_bsd.Text.{Text, codes, contains}
use closed_bsd.World.{World}

abbrev ping : Text
ping = codes " add allow icmp from any to any"

ping-IsPlain : IsPlain ping
unfolding contains
ping-IsPlain = record {
  title = record {
    first = b' ';
    others = codes "add allow icmp from any to any";
    splits = refl;
    first_not_q = refl;
    no_newline = refl;
    short = omega arith;
  };
  no_q = refl;
}

abbrev world : World
world = record { content = λ _. some (script (ping ∷ [])); opens = λ _. true; ran = [] }

records-outer : records listed state ≡ ok ((0, outer) ∷ [])
unfolding records
records-outer = refl

summary-numbered_example :
    (rows : List (Row (Text × Text × Text))) × (summary listed state world
      ≡ ok (rows, some (numbered 8 (ping ∷ []))))
    × (length rows ≡ 1)
    × ((n k : ℕ) (d : Device)
        → get_elem? {A = ℕ × Device} ((0, outer) ∷ []) n ≡ some (k, d)
        → get_elem? rows n ≡ some (3 + n, (d.device, d.ip, d.netmask)))
summary-numbered_example =
    summary-numbered listed state world (ping ∷ []) records-outer refl refl (ping-IsPlain, tt)
