-- ===== src/Boxes/Icmp.antt =====
-- The options box of an ICMP rule (`draw_options` of closedbsd/config/misc.c), by the row that is lit.
use closed_bsd.Base.{ℕ, List, [], ◌∷◌, ◌==◌, if◌then◌else◌}
use closed_bsd.Boxes.Row.{Row, lit, plain}
use closed_bsd.Rules.Ruleset.{dest_unreach, echo_reply, echo_request, no_option}

unfoldable pub none_lit : ℕ → List Row
none_lit option =
    if option == no_option
    then plain " ( )   Echo Request   "
      ∷ plain " ( )   Dest. Unreach  "
      ∷ plain " ( )   Echo Reply     "
      ∷ plain " (*)   None           "
      ∷ []
    else if option == echo_request
    then plain " (*)   Echo Request   "
      ∷ plain " ( )   Dest. Unreach  "
      ∷ plain " ( )   Echo Reply     "
      ∷ plain " ( )   None           "
      ∷ []
    else if option == dest_unreach
    then plain " ( )   Echo Request   "
      ∷ plain " (*)   Dest. Unreach  "
      ∷ plain " ( )   Echo Reply     "
      ∷ plain " ( )   None           "
      ∷ []
    else if option == echo_reply
    then plain " ( )   Echo Request   "
      ∷ plain " ( )   Dest. Unreach  "
      ∷ plain " (*)   Echo Reply     "
      ∷ plain " ( )   None           "
      ∷ []
    else []

unfoldable pub first_lit : ℕ → List Row
first_lit option =
    if option == no_option
    then lit "[( )   Echo Request  ]"
      ∷ plain " ( )   Dest. Unreach  "
      ∷ plain " ( )   Echo Reply     "
      ∷ plain " (*)   None           "
      ∷ []
    else if option == echo_request
    then lit "[(*)   Echo Request  ]"
      ∷ plain " ( )   Dest. Unreach  "
      ∷ plain " ( )   Echo Reply     "
      ∷ plain " ( )   None           "
      ∷ []
    else if option == dest_unreach
    then lit "[( )   Echo Request  ]"
      ∷ plain " (*)   Dest. Unreach  "
      ∷ plain " ( )   Echo Reply     "
      ∷ plain " ( )   None           "
      ∷ []
    else if option == echo_reply
    then lit "[( )   Echo Request  ]"
      ∷ plain " ( )   Dest. Unreach  "
      ∷ plain " (*)   Echo Reply     "
      ∷ plain " ( )   None           "
      ∷ []
    else []

unfoldable pub second_lit : ℕ → List Row
second_lit option =
    if option == no_option
    then plain " ( )   Echo Request   "
      ∷ lit "[( )   Dest. Unreach ]"
      ∷ plain " ( )   Echo Reply     "
      ∷ plain " (*)   None           "
      ∷ []
    else if option == echo_request
    then plain " (*)   Echo Request   "
      ∷ lit "[( )   Dest. Unreach ]"
      ∷ plain " ( )   Echo Reply     "
      ∷ plain " ( )   None           "
      ∷ []
    else if option == dest_unreach
    then plain " ( )   Echo Request   "
      ∷ lit "[(*)   Dest. Unreach ]"
      ∷ plain " ( )   Echo Reply     "
      ∷ plain " ( )   None           "
      ∷ []
    else if option == echo_reply
    then plain " ( )   Echo Request   "
      ∷ lit "[( )   Dest. Unreach ]"
      ∷ plain " (*)   Echo Reply     "
      ∷ plain " ( )   None           "
      ∷ []
    else []

unfoldable pub third_lit : ℕ → List Row
third_lit option =
    if option == no_option
    then plain " ( )   Echo Request   "
      ∷ plain " ( )   Dest. Unreach  "
      ∷ lit "[( )   Echo Reply    ]"
      ∷ plain " (*)   None           "
      ∷ []
    else if option == echo_request
    then plain " (*)   Echo Request   "
      ∷ plain " ( )   Dest. Unreach  "
      ∷ lit "[( )   Echo Reply    ]"
      ∷ plain " ( )   None           "
      ∷ []
    else if option == dest_unreach
    then plain " ( )   Echo Request   "
      ∷ plain " (*)   Dest. Unreach  "
      ∷ lit "[( )   Echo Reply    ]"
      ∷ plain " ( )   None           "
      ∷ []
    else if option == echo_reply
    then plain " ( )   Echo Request   "
      ∷ plain " ( )   Dest. Unreach  "
      ∷ lit "[(*)   Echo Reply    ]"
      ∷ plain " ( )   None           "
      ∷ []
    else []

unfoldable pub fourth_lit : ℕ → List Row
fourth_lit option =
    if option == no_option
    then plain " ( )   Echo Request   "
      ∷ plain " ( )   Dest. Unreach  "
      ∷ plain " ( )   Echo Reply     "
      ∷ lit "[(*)   None          ]"
      ∷ []
    else if option == echo_request
    then plain " (*)   Echo Request   "
      ∷ plain " ( )   Dest. Unreach  "
      ∷ plain " ( )   Echo Reply     "
      ∷ lit "[( )   None          ]"
      ∷ []
    else if option == dest_unreach
    then plain " ( )   Echo Request   "
      ∷ plain " (*)   Dest. Unreach  "
      ∷ plain " ( )   Echo Reply     "
      ∷ lit "[( )   None          ]"
      ∷ []
    else if option == echo_reply
    then plain " ( )   Echo Request   "
      ∷ plain " ( )   Dest. Unreach  "
      ∷ plain " (*)   Echo Reply     "
      ∷ lit "[( )   None          ]"
      ∷ []
    else []
