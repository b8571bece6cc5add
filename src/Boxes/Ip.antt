-- ===== src/Boxes/Ip.antt =====
-- The options box of an IP rule (`draw_options` of closedbsd/config/misc.c), by the row that is lit.
use closed_bsd.Base.{ℕ, List, [], ◌∷◌, ◌==◌, if◌then◌else◌}
use closed_bsd.Boxes.Row.{Row, lit, plain}
use closed_bsd.Rules.Ruleset.{lsrr, no_option, ssrr, ts}

unfoldable pub none_lit : ℕ → List Row
none_lit option =
    if option == no_option
    then plain " ( )   SSRR           "
      ∷ plain " ( )   LSRR           "
      ∷ plain " ( )   TS             "
      ∷ plain " (*)   None           "
      ∷ []
    else if option == ssrr
    then plain " (*)   SSRR           "
      ∷ plain " ( )   LSRR           "
      ∷ plain " ( )   TS             "
      ∷ plain " ( )   None           "
      ∷ []
    else if option == lsrr
    then plain " ( )   SSRR           "
      ∷ plain " (*)   LSRR           "
      ∷ plain " ( )   TS             "
      ∷ plain " ( )   None           "
      ∷ []
    else if option == ts
    then plain " ( )   SSRR           "
      ∷ plain " ( )   LSRR           "
      ∷ plain " (*)   TS             "
      ∷ plain " ( )   None           "
      ∷ []
    else []

unfoldable pub first_lit : ℕ → List Row
first_lit option =
    if option == no_option
    then lit "[( )   SSRR          ]"
      ∷ plain " ( )   LSRR           "
      ∷ plain " ( )   TS             "
      ∷ plain " (*)   None           "
      ∷ []
    else if option == ssrr
    then lit "[(*)   SSRR          ]"
      ∷ plain " ( )   LSRR           "
      ∷ plain " ( )   TS             "
      ∷ plain " ( )   None           "
      ∷ []
    else if option == lsrr
    then lit "[( )   SSRR          ]"
      ∷ plain " (*)   LSRR           "
      ∷ plain " ( )   TS             "
      ∷ plain " ( )   None           "
      ∷ []
    else if option == ts
    then lit "[( )   SSRR          ]"
      ∷ plain " ( )   LSRR           "
      ∷ plain " (*)   TS             "
      ∷ plain " ( )   None           "
      ∷ []
    else []

unfoldable pub second_lit : ℕ → List Row
second_lit option =
    if option == no_option
    then plain " ( )   SSRR           "
      ∷ lit "[( )   LSRR          ]"
      ∷ plain " ( )   TS             "
      ∷ plain " (*)   None           "
      ∷ []
    else if option == ssrr
    then plain " (*)   SSRR           "
      ∷ lit "[( )   LSRR          ]"
      ∷ plain " ( )   TS             "
      ∷ plain " ( )   None           "
      ∷ []
    else if option == lsrr
    then plain " ( )   SSRR           "
      ∷ lit "[(*)   LSRR          ]"
      ∷ plain " ( )   TS             "
      ∷ plain " ( )   None           "
      ∷ []
    else if option == ts
    then plain " ( )   SSRR           "
      ∷ lit "[( )   LSRR          ]"
      ∷ plain " (*)   TS             "
      ∷ plain " ( )   None           "
      ∷ []
    else []

unfoldable pub third_lit : ℕ → List Row
third_lit option =
    if option == no_option
    then plain " ( )   SSRR           "
      ∷ plain " ( )   LSRR           "
      ∷ lit "[( )   TS            ]"
      ∷ plain " (*)   None           "
      ∷ []
    else if option == ssrr
    then plain " (*)   SSRR           "
      ∷ plain " ( )   LSRR           "
      ∷ lit "[( )   TS            ]"
      ∷ plain " ( )   None           "
      ∷ []
    else if option == lsrr
    then plain " ( )   SSRR           "
      ∷ plain " (*)   LSRR           "
      ∷ lit "[( )   TS            ]"
      ∷ plain " ( )   None           "
      ∷ []
    else if option == ts
    then plain " ( )   SSRR           "
      ∷ plain " ( )   LSRR           "
      ∷ lit "[(*)   TS            ]"
      ∷ plain " ( )   None           "
      ∷ []
    else []

unfoldable pub fourth_lit : ℕ → List Row
fourth_lit option =
    if option == no_option
    then plain " ( )   SSRR           "
      ∷ plain " ( )   LSRR           "
      ∷ plain " ( )   TS             "
      ∷ lit "[(*)   None          ]"
      ∷ []
    else if option == ssrr
    then plain " (*)   SSRR           "
      ∷ plain " ( )   LSRR           "
      ∷ plain " ( )   TS             "
      ∷ lit "[( )   None          ]"
      ∷ []
    else if option == lsrr
    then plain " ( )   SSRR           "
      ∷ plain " (*)   LSRR           "
      ∷ plain " ( )   TS             "
      ∷ lit "[( )   None          ]"
      ∷ []
    else if option == ts
    then plain " ( )   SSRR           "
      ∷ plain " ( )   LSRR           "
      ∷ plain " (*)   TS             "
      ∷ lit "[( )   None          ]"
      ∷ []
    else []
