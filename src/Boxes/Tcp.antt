-- ===== src/Boxes/Tcp.antt =====
-- The options box of a TCP rule (`draw_options` of closedbsd/config/misc.c), by the row that is lit.
use closed_bsd.Base.{ℕ, List, [], ◌∷◌, ◌==◌, if◌then◌else◌}
use closed_bsd.Boxes.Row.{Row, lit, plain}
use closed_bsd.Rules.Ruleset.{established, frag, no_option, setup}

unfoldable pub none_lit : ℕ → List Row
none_lit option =
    if option == no_option
    then plain " ( )   Established    "
      ∷ plain " ( )   Setup (SYN)    "
      ∷ plain " ( )   Fragmented     "
      ∷ plain " (*)   None           "
      ∷ []
    else if option == setup
    then plain " ( )   Established    "
      ∷ plain " (*)   Setup (SYN)    "
      ∷ plain " ( )   Fragmented     "
      ∷ plain " ( )   None           "
      ∷ []
    else if option == established
    then plain " (*)   Established    "
      ∷ plain " ( )   Setup (SYN)    "
      ∷ plain " ( )   Fragmented     "
      ∷ plain " ( )   None           "
      ∷ []
    else if option == frag
    then plain " ( )   Established    "
      ∷ plain " ( )   Setup (SYN)    "
      ∷ plain " (*)   Fragmented     "
      ∷ plain " ( )   None           "
      ∷ []
    else []

unfoldable pub first_lit : ℕ → List Row
first_lit option =
    if option == no_option
    then lit "[( )   Established   ]"
      ∷ plain " ( )   Setup (SYN)    "
      ∷ plain " ( )   Fragmented     "
      ∷ plain " (*)   None           "
      ∷ []
    else if option == setup
    then lit "[( )   Established   ]"
      ∷ plain " (*)   Setup (SYN)    "
      ∷ plain " ( )   Fragmented     "
      ∷ plain " ( )   None           "
      ∷ []
    else if option == established
    then lit "[(*)   Established   ]"
      ∷ plain " ( )   Setup (SYN)    "
      ∷ plain " ( )   Fragmented     "
      ∷ plain " ( )   None           "
      ∷ []
    else if option == frag
    then lit "[( )   Established   ]"
      ∷ plain " ( )   Setup (SYN)    "
      ∷ plain " (*)   Fragmented     "
      ∷ plain " ( )   None           "
      ∷ []
    else []

unfoldable pub second_lit : ℕ → List Row
second_lit option =
    if option == no_option
    then plain " ( )   Established    "
      ∷ lit "[( )   Setup (SYN)   ]"
      ∷ plain " ( )   Fragmented     "
      ∷ plain " (*)   None           "
      ∷ []
    else if option == setup
    then plain " ( )   Established    "
      ∷ lit "[(*)   Setup (SYN)   ]"
      ∷ plain " ( )   Fragmented     "
      ∷ plain " ( )   None           "
      ∷ []
    else if option == established
    then plain " (*)   Established    "
      ∷ lit "[( )   Setup (SYN)   ]"
      ∷ plain " ( )   Fragmented     "
      ∷ plain " ( )   None           "
      ∷ []
    else if option == frag
    then plain " ( )   Established    "
      ∷ lit "[( )   Setup (SYN)   ]"
      ∷ plain " (*)   Fragmented     "
      ∷ plain " ( )   None           "
      ∷ []
    else []

unfoldable pub third_lit : ℕ → List Row
third_lit option =
    if option == no_option
    then plain " ( )   Established    "
      ∷ plain " ( )   Setup (SYN)    "
      ∷ lit "[( )   Fragmented    ]"
      ∷ plain " (*)   None           "
      ∷ []
    else if option == setup
    then plain " ( )   Established    "
      ∷ plain " (*)   Setup (SYN)    "
      ∷ lit "[( )   Fragmented    ]"
      ∷ plain " ( )   None           "
      ∷ []
    else if option == established
    then plain " (*)   Established    "
      ∷ plain " ( )   Setup (SYN)    "
      ∷ lit "[( )   Fragmented    ]"
      ∷ plain " ( )   None           "
      ∷ []
    else if option == frag
    then plain " ( )   Established    "
      ∷ plain " ( )   Setup (SYN)    "
      ∷ lit "[(*)   Fragmented    ]"
      ∷ plain " ( )   None           "
      ∷ []
    else []

unfoldable pub fourth_lit : ℕ → List Row
fourth_lit option =
    if option == no_option
    then plain " ( )   Established    "
      ∷ plain " ( )   Setup (SYN)    "
      ∷ plain " ( )   Fragmented     "
      ∷ lit "[(*)   None          ]"
      ∷ []
    else if option == setup
    then plain " ( )   Established    "
      ∷ plain " (*)   Setup (SYN)    "
      ∷ plain " ( )   Fragmented     "
      ∷ lit "[( )   None          ]"
      ∷ []
    else if option == established
    then plain " (*)   Established    "
      ∷ plain " ( )   Setup (SYN)    "
      ∷ plain " ( )   Fragmented     "
      ∷ lit "[( )   None          ]"
      ∷ []
    else if option == frag
    then plain " ( )   Established    "
      ∷ plain " ( )   Setup (SYN)    "
      ∷ plain " (*)   Fragmented     "
      ∷ lit "[( )   None          ]"
      ∷ []
    else []
