-- ===== src/Boxes/Udp.antt =====
-- The options box of a UDP rule (`draw_options` of closedbsd/config/misc.c), by the row that is lit.
use closed_bsd.Base.{List, [], ◌∷◌}
use closed_bsd.Boxes.Row.{Row, lit, plain}

abbrev pub none_lit : List Row
none_lit =
    plain " No UDP options       "
    ∷ plain " No UDP options       "
    ∷ plain " No UDP options       "
    ∷ plain " No UDP options       "
    ∷ []

abbrev pub first_lit : List Row
first_lit =
    lit "[No UDP options      ]"
    ∷ plain " No UDP options       "
    ∷ plain " No UDP options       "
    ∷ plain " No UDP options       "
    ∷ []

abbrev pub second_lit : List Row
second_lit =
    plain " No UDP options       "
    ∷ lit "[No UDP options      ]"
    ∷ plain " No UDP options       "
    ∷ plain " No UDP options       "
    ∷ []

abbrev pub third_lit : List Row
third_lit =
    plain " No UDP options       "
    ∷ plain " No UDP options       "
    ∷ lit "[No UDP options      ]"
    ∷ plain " No UDP options       "
    ∷ []

abbrev pub fourth_lit : List Row
fourth_lit =
    plain " No UDP options       "
    ∷ plain " No UDP options       "
    ∷ plain " No UDP options       "
    ∷ lit "[No UDP options      ]"
    ∷ []
