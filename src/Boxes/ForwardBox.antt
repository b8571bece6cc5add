-- ===== src/Boxes/ForwardBox.antt =====
-- The protocol box of the form for forwards (`draw_protocol_forward_box` of
-- closedbsd/config/misc.c), by the row that is lit.
use closed_bsd.Base.{List, [], ◌∷◌}
use closed_bsd.Boxes.Row.{Row, lit, plain}
use closed_bsd.Rules.Ruleset.{Proto, tcp, udp}

unfoldable pub none_lit : Proto → List Row
none_lit tcp =
    plain " (*) TCP     Transmission Control Protocol      "
    ∷ plain " ( ) UDP     User Datagram Protocol             "
    ∷ []
none_lit udp =
    plain " ( ) TCP     Transmission Control Protocol      "
    ∷ plain " (*) UDP     User Datagram Protocol             "
    ∷ []
none_lit _ = []

unfoldable pub first_lit : Proto → List Row
first_lit tcp =
    lit "[(*) TCP     Transmission Control Protocol     ]"
    ∷ plain " ( ) UDP     User Datagram Protocol             "
    ∷ []
first_lit udp =
    lit "[( ) TCP     Transmission Control Protocol     ]"
    ∷ plain " (*) UDP     User Datagram Protocol             "
    ∷ []
first_lit _ = []

unfoldable pub second_lit : Proto → List Row
second_lit tcp =
    plain " (*) TCP     Transmission Control Protocol      "
    ∷ lit "[( ) UDP     User Datagram Protocol            ]"
    ∷ []
second_lit udp =
    plain " ( ) TCP     Transmission Control Protocol      "
    ∷ lit "[(*) UDP     User Datagram Protocol            ]"
    ∷ []
second_lit _ = []
