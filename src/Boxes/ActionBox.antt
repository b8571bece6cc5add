-- ===== src/Boxes/ActionBox.antt =====
-- The action box (`draw_action_box` of closedbsd/config/misc.c), by the row that is lit.
use closed_bsd.Base.{List, [], ◌∷◌}
use closed_bsd.Boxes.Row.{Row, lit, plain}
use closed_bsd.Rules.Ruleset.{Action, allow, deny, reset}

unfoldable pub none_lit : Action → List Row
none_lit allow =
    plain " (*) Allow   Allow packets matching this rule   "
    ∷ plain " ( ) Deny    Deny packets matching this rule    "
    ∷ plain " ( ) Reset   Discard packet and send RST (TCP)  "
    ∷ []
none_lit deny =
    plain " ( ) Allow   Allow packets matching this rule   "
    ∷ plain " (*) Deny    Deny packets matching this rule    "
    ∷ plain " ( ) Reset   Discard packet and send RST (TCP)  "
    ∷ []
none_lit reset =
    plain " ( ) Allow   Allow packets matching this rule   "
    ∷ plain " ( ) Deny    Deny packets matching this rule    "
    ∷ plain " (*) Reset   Discard packet and send RST (TCP)  "
    ∷ []
none_lit _ = []

unfoldable pub first_lit : Action → List Row
first_lit allow =
    lit "[(*) Allow   Allow packets matching this rule  ]"
    ∷ plain " ( ) Deny    Deny packets matching this rule    "
    ∷ plain " ( ) Reset   Discard packet and send RST (TCP)  "
    ∷ []
first_lit deny =
    lit "[( ) Allow   Allow packets matching this rule  ]"
    ∷ plain " (*) Deny    Deny packets matching this rule    "
    ∷ plain " ( ) Reset   Discard packet and send RST (TCP)  "
    ∷ []
first_lit reset =
    lit "[( ) Allow   Allow packets matching this rule  ]"
    ∷ plain " ( ) Deny    Deny packets matching this rule    "
    ∷ plain " (*) Reset   Discard packet and send RST (TCP)  "
    ∷ []
first_lit _ = []

unfoldable pub second_lit : Action → List Row
second_lit allow =
    plain " (*) Allow   Allow packets matching this rule   "
    ∷ lit "[( ) Deny    Deny packets matching this rule   ]"
    ∷ plain " ( ) Reset   Discard packet and send RST (TCP)  "
    ∷ []
second_lit deny =
    plain " ( ) Allow   Allow packets matching this rule   "
    ∷ lit "[(*) Deny    Deny packets matching this rule   ]"
    ∷ plain " ( ) Reset   Discard packet and send RST (TCP)  "
    ∷ []
second_lit reset =
    plain " ( ) Allow   Allow packets matching this rule   "
    ∷ lit "[( ) Deny    Deny packets matching this rule   ]"
    ∷ plain " (*) Reset   Discard packet and send RST (TCP)  "
    ∷ []
second_lit _ = []

unfoldable pub third_lit : Action → List Row
third_lit allow =
    plain " (*) Allow   Allow packets matching this rule   "
    ∷ plain " ( ) Deny    Deny packets matching this rule    "
    ∷ lit "[( ) Reset   Discard packet and send RST (TCP) ]"
    ∷ []
third_lit deny =
    plain " ( ) Allow   Allow packets matching this rule   "
    ∷ plain " (*) Deny    Deny packets matching this rule    "
    ∷ lit "[( ) Reset   Discard packet and send RST (TCP) ]"
    ∷ []
third_lit reset =
    plain " ( ) Allow   Allow packets matching this rule   "
    ∷ plain " ( ) Deny    Deny packets matching this rule    "
    ∷ lit "[(*) Reset   Discard packet and send RST (TCP) ]"
    ∷ []
third_lit _ = []
