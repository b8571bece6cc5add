-- ===== src/Boxes/Iface.antt =====
-- The interface box (`draw_iface` of closedbsd/config/misc.c), by the row that is lit.
use closed_bsd.Base.{List, [], ◌∷◌}
use closed_bsd.Boxes.Row.{Row, lit, plain}
use closed_bsd.Rules.Ruleset.{Flow, any, incoming, outgoing}

unfoldable pub none_lit : Flow → List Row
none_lit incoming =
    plain " (*)   Incoming     " ∷ plain " ( )   Outgoing     " ∷ plain " ( )   Any          " ∷ []
none_lit outgoing =
    plain " ( )   Incoming     " ∷ plain " (*)   Outgoing     " ∷ plain " ( )   Any          " ∷ []
none_lit any =
    plain " ( )   Incoming     " ∷ plain " ( )   Outgoing     " ∷ plain " (*)   Any          " ∷ []

unfoldable pub first_lit : Flow → List Row
first_lit incoming =
    lit "[(*)   Incoming      ]"
    ∷ plain " ( )   Outgoing       "
    ∷ plain " ( )   Any            "
    ∷ []
first_lit outgoing =
    lit "[( )   Incoming      ]"
    ∷ plain " (*)   Outgoing       "
    ∷ plain " ( )   Any            "
    ∷ []
first_lit any =
    lit "[( )   Incoming      ]"
    ∷ plain " ( )   Outgoing       "
    ∷ plain " (*)   Any            "
    ∷ []

unfoldable pub second_lit : Flow → List Row
second_lit incoming =
    plain " (*)   Incoming       "
    ∷ lit "[( )   Outgoing      ]"
    ∷ plain " ( )   Any            "
    ∷ []
second_lit outgoing =
    plain " ( )   Incoming       "
    ∷ lit "[(*)   Outgoing      ]"
    ∷ plain " ( )   Any            "
    ∷ []
second_lit any =
    plain " ( )   Incoming       "
    ∷ lit "[( )   Outgoing      ]"
    ∷ plain " (*)   Any            "
    ∷ []

unfoldable pub third_lit : Flow → List Row
third_lit incoming =
    plain " (*)   Incoming       "
    ∷ plain " ( )   Outgoing       "
    ∷ lit "[( )   Any           ]"
    ∷ []
third_lit outgoing =
    plain " ( )   Incoming       "
    ∷ plain " (*)   Outgoing       "
    ∷ lit "[( )   Any           ]"
    ∷ []
third_lit any =
    plain " ( )   Incoming       "
    ∷ plain " ( )   Outgoing       "
    ∷ lit "[(*)   Any           ]"
    ∷ []
