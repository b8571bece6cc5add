-- ===== src/Boxes/ProtocolBox.antt =====
-- The protocol box (`draw_protocol_box` of closedbsd/config/misc.c), by the row that is lit.
use closed_bsd.Base.{List, [], ◌∷◌}
use closed_bsd.Boxes.Row.{Row, lit, plain}
use closed_bsd.Rules.Ruleset.{Proto, icmp, ip, tcp, udp}

unfoldable pub none_lit : Proto → List Row
none_lit ip =
    plain " ( ) TCP     Transmission Control Protocol      "
    ∷ plain " (*) IP      Internet Protocol                  "
    ∷ plain " ( ) UDP     User Datagram Protocol             "
    ∷ plain " ( ) ICMP    Internet Control Message Protocol  "
    ∷ []
none_lit tcp =
    plain " (*) TCP     Transmission Control Protocol      "
    ∷ plain " ( ) IP      Internet Protocol                  "
    ∷ plain " ( ) UDP     User Datagram Protocol             "
    ∷ plain " ( ) ICMP    Internet Control Message Protocol  "
    ∷ []
none_lit udp =
    plain " ( ) TCP     Transmission Control Protocol      "
    ∷ plain " ( ) IP      Internet Protocol                  "
    ∷ plain " (*) UDP     User Datagram Protocol             "
    ∷ plain " ( ) ICMP    Internet Control Message Protocol  "
    ∷ []
none_lit icmp =
    plain " ( ) TCP     Transmission Control Protocol      "
    ∷ plain " ( ) IP      Internet Protocol                  "
    ∷ plain " ( ) UDP     User Datagram Protocol             "
    ∷ plain " (*) ICMP    Internet Control Message Protocol  "
    ∷ []

unfoldable pub first_lit : Proto → List Row
first_lit ip =
    lit "[( ) TCP     Transmission Control Protocol     ]"
    ∷ plain " (*) IP      Internet Protocol                  "
    ∷ plain " ( ) UDP     User Datagram Protocol             "
    ∷ plain " ( ) ICMP    Internet Control Message Protocol  "
    ∷ []
first_lit tcp =
    lit "[(*) TCP     Transmission Control Protocol     ]"
    ∷ plain " ( ) IP      Internet Protocol                  "
    ∷ plain " ( ) UDP     User Datagram Protocol             "
    ∷ plain " ( ) ICMP    Internet Control Message Protocol  "
    ∷ []
first_lit udp =
    lit "[( ) TCP     Transmission Control Protocol     ]"
    ∷ plain " ( ) IP      Internet Protocol                  "
    ∷ plain " (*) UDP     User Datagram Protocol             "
    ∷ plain " ( ) ICMP    Internet Control Message Protocol  "
    ∷ []
first_lit icmp =
    lit "[( ) TCP     Transmission Control Protocol     ]"
    ∷ plain " ( ) IP      Internet Protocol                  "
    ∷ plain " ( ) UDP     User Datagram Protocol             "
    ∷ plain " (*) ICMP    Internet Control Message Protocol  "
    ∷ []

unfoldable pub second_lit : Proto → List Row
second_lit ip =
    plain " ( ) TCP     Transmission Control Protocol      "
    ∷ lit "[(*) IP      Internet Protocol                 ]"
    ∷ plain " ( ) UDP     User Datagram Protocol             "
    ∷ plain " ( ) ICMP    Internet Control Message Protocol  "
    ∷ []
second_lit tcp =
    plain " (*) TCP     Transmission Control Protocol      "
    ∷ lit "[( ) IP      Internet Protocol                 ]"
    ∷ plain " ( ) UDP     User Datagram Protocol             "
    ∷ plain " ( ) ICMP    Internet Control Message Protocol  "
    ∷ []
second_lit udp =
    plain " ( ) TCP     Transmission Control Protocol      "
    ∷ lit "[( ) IP      Internet Protocol                 ]"
    ∷ plain " (*) UDP     User Datagram Protocol             "
    ∷ plain " ( ) ICMP    Internet Control Message Protocol  "
    ∷ []
second_lit icmp =
    plain " ( ) TCP     Transmission Control Protocol      "
    ∷ lit "[( ) IP      Internet Protocol                 ]"
    ∷ plain " ( ) UDP     User Datagram Protocol             "
    ∷ plain " (*) ICMP    Internet Control Message Protocol  "
    ∷ []

unfoldable pub third_lit : Proto → List Row
third_lit ip =
    plain " ( ) TCP     Transmission Control Protocol      "
    ∷ plain " (*) IP      Internet Protocol                  "
    ∷ lit "[( ) UDP     User Datagram Protocol            ]"
    ∷ plain " ( ) ICMP    Internet Control Message Protocol  "
    ∷ []
third_lit tcp =
    plain " (*) TCP     Transmission Control Protocol      "
    ∷ plain " ( ) IP      Internet Protocol                  "
    ∷ lit "[( ) UDP     User Datagram Protocol            ]"
    ∷ plain " ( ) ICMP    Internet Control Message Protocol  "
    ∷ []
third_lit udp =
    plain " ( ) TCP     Transmission Control Protocol      "
    ∷ plain " ( ) IP      Internet Protocol                  "
    ∷ lit "[(*) UDP     User Datagram Protocol            ]"
    ∷ plain " ( ) ICMP    Internet Control Message Protocol  "
    ∷ []
third_lit icmp =
    plain " ( ) TCP     Transmission Control Protocol      "
    ∷ plain " ( ) IP      Internet Protocol                  "
    ∷ lit "[( ) UDP     User Datagram Protocol            ]"
    ∷ plain " (*) ICMP    Internet Control Message Protocol  "
    ∷ []

unfoldable pub fourth_lit : Proto → List Row
fourth_lit ip =
    plain " ( ) TCP     Transmission Control Protocol      "
    ∷ plain " (*) IP      Internet Protocol                  "
    ∷ plain " ( ) UDP     User Datagram Protocol             "
    ∷ lit "[( ) ICMP    Internet Control Message Protocol ]"
    ∷ []
fourth_lit tcp =
    plain " (*) TCP     Transmission Control Protocol      "
    ∷ plain " ( ) IP      Internet Protocol                  "
    ∷ plain " ( ) UDP     User Datagram Protocol             "
    ∷ lit "[( ) ICMP    Internet Control Message Protocol ]"
    ∷ []
fourth_lit udp =
    plain " ( ) TCP     Transmission Control Protocol      "
    ∷ plain " ( ) IP      Internet Protocol                  "
    ∷ plain " (*) UDP     User Datagram Protocol             "
    ∷ lit "[( ) ICMP    Internet Control Message Protocol ]"
    ∷ []
fourth_lit icmp =
    plain " ( ) TCP     Transmission Control Protocol      "
    ∷ plain " ( ) IP      Internet Protocol                  "
    ∷ plain " ( ) UDP     User Datagram Protocol             "
    ∷ lit "[(*) ICMP    Internet Control Message Protocol ]"
    ∷ []
