-- ===== src/Monitor/Examples.antt =====
-- A session of the monitor.
use closed_bsd.Base.{
  ℕ, ◌≡◌, refl, true, false, List, [], ◌∷◌, get_elem?, none, some, if◌then◌else◌, ◌==◌,
}
use closed_bsd.Monitor.{Packet, Event, Monitor, Time, source_text, target_text}
use closed_bsd.Monitor.Rows.{connections}
use closed_bsd.Text.{codes}

-- 10.0.0.2:1025 to 10.0.0.1:80 behind an Ethernet header.
abbrev syn_bytes : List ℕ
syn_bytes =
    0 ∷ 0 ∷ 0 ∷ 0 ∷ 0 ∷ 0 ∷ 0 ∷ 0 ∷ 0 ∷ 0 ∷ 0 ∷ 0 ∷ 8 ∷ 0 ∷ 69 ∷ 0 ∷ 0 ∷ 40 ∷ 0 ∷ 1 ∷ 64 ∷ 0 ∷ 64
    ∷ 6 ∷ 0 ∷ 0 ∷ 10 ∷ 0 ∷ 0 ∷ 2 ∷ 10 ∷ 0 ∷ 0 ∷ 1 ∷ 4 ∷ 1 ∷ 0 ∷ 80 ∷ 0 ∷ 0 ∷ 0 ∷ 0 ∷ 0 ∷ 0 ∷ 0 ∷ 0
    ∷ 80 ∷ 2 ∷ []

abbrev byte_at : List ℕ → ℕ → ℕ
byte_at bytes i = elim (get_elem? bytes i) [ none ↦ 0 | some b ↦ b ]

abbrev syn : Packet
syn = record { len = 60; bytes = byte_at syn_bytes; readable = 1024 }

-- The same with ACK.
abbrev answer : Packet
answer = record {
  len = 60;
  bytes = λ i. if i == 47 then 18 else byte_at syn_bytes i;
  readable = 1024;
}

abbrev noon : Time
noon = record { month = 2; day = 1; hour = 12; minute = 0 }

abbrev session : List Event
session =
    record { pressed = false; time = noon; packet = syn }
    ∷ record { pressed = false; time = noon; packet = answer }
    ∷ record { pressed = true; time = noon; packet = syn }
    ∷ record { pressed = false; time = noon; packet = record syn { len = 20 } }
    ∷ []

abbrev opened : Monitor
opened = record { y = 10; rows = λ i. []; align_buf = λ i. 255; clears = 0 }

session-shown : connections 14 session ≡ codes "Mar 01 12:00 : 10.0.0.2:1025 -> 10.0.0.1:80" ∷ []
unfolding source_text target_text
session-shown = refl
