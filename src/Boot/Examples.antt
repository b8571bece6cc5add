-- ===== src/Boot/Examples.antt =====
-- A rule that is inserted and then booted (closedbsd/config/rules.c, closedbsd/init/rules.c).
use closed_bsd.Base.{◌≡◌, refl, true, none, some, [], ◌∷◌, ◌++◌, arith, if◌then◌else◌}
use closed_bsd.Rules.Script.Contents.{IsCommand, lines}
use closed_bsd.Boot.Configured.{config_devices-first_dhcp}
use closed_bsd.Boot.Interfaces.{config_devices}
use closed_bsd.Devices.Device.{Device, State}
use closed_bsd.Devices.Listed.{listed, state, upsert}
use closed_bsd.Devices.Search.{next_device_id}
use closed_bsd.Devices.Update.{dev_config_dhcp, dhcp_device, insert_device, store_open, configure}
use closed_bsd.Devices.Update
use closed_bsd.Fault.{ok}
use closed_bsd.Rules.Command.Bounds.{assembled}
use closed_bsd.Rules.Command.{opening, tail_pieces}
use closed_bsd.Rules.Raw.RoundTrip.{raw_drop_rule-insert_rule}
use closed_bsd.Rules.Raw.{raw_drop_rule}
use closed_bsd.Rules.Raw
use closed_bsd.Rules.Ruleset.{Ruleset, zeroed, deny, tcp}
use closed_bsd.Rules.Script.{insert_rule, success}
use closed_bsd.Text.{Text, codes, contains}
use closed_bsd.World.{World, rules, nat, dhclient_conf, same}

abbrev ping : Text
ping = codes "/sbin/ipfw -q add allow icmp from any to any"

-- A script of one command, and no NAT script.
abbrev world : World
world = record {
  content = λ f. if same f rules then some (lines (ping ∷ [])) else none;
  opens = λ _. true;
  ran = [];
}

abbrev telnet : Ruleset
telnet = record zeroed {
  action = deny;
  proto = tcp;
  src = codes "any";
  dst = codes "any";
  dst_port = codes "23";
}

abbrev telnet_opening : Text
telnet_opening = codes "/sbin/ipfw -q add deny tcp "

opens_telnet : opening telnet.proto telnet.action ≡ ok telnet_opening
unfolding opening
opens_telnet = refl

ping-IsCommand : IsCommand ping
unfolding contains
ping-IsCommand = record { no_newline = refl; short = omega arith }

telnet-IsCommand : IsCommand (assembled telnet_opening telnet)
unfolding contains tail_pieces
telnet-IsCommand = record { no_newline = refl; short = omega arith }

-- A new database.
abbrev fresh : State listed
fresh = record state { file = some [] }

abbrev first : Device
first = dhcp_device 0 (codes "fxp0")

abbrev stored : State listed
stored = record fresh { file = some ((0, first) ∷ []); ran = configure first }

configured : dev_config_dhcp listed (codes "fxp0") none fresh ≡ ok (stored, Update.success)
unfolding dev_config_dhcp insert_device store_open upsert next_device_id
configured = refl

config_devices-first_dhcp_example :
    config_devices listed stored
    ≡ ok (record stored { ran = stored.ran ++ (codes "/sbin/ifconfig fxp0  netmask " ∷ []) })
config_devices-first_dhcp_example =
    config_devices-first_dhcp listed (codes "fxp0") none fresh refl refl refl (omega arith)
      configured

raw_drop_rule-insert_rule_example :
    (w₁ : World) × (w₂ : World) × (insert_rule telnet world ≡ ok (w₁, success))
    × (raw_drop_rule 2 w₁ ≡ ok (w₂, Raw.success))
    × (w₂.content rules ≡ world.content rules)
    × (w₂.content nat ≡ world.content nat)
    × (w₂.content dhclient_conf ≡ world.content dhclient_conf)
    × (w₂.ran ≡ w₁.ran)
raw_drop_rule-insert_rule_example =
    raw_drop_rule-insert_rule telnet (ping ∷ []) world opens_telnet (omega arith) telnet-IsCommand
      (ping-IsCommand, tt) refl refl refl
