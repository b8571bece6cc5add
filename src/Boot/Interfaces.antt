-- ===== src/Boot/Interfaces.antt =====
-- What the boot program does with the device database (`config_devices` of
-- closedbsd/init/devices.c).
use closed_bsd.Base.{
  ℕ, Bool, true, false, ◌&&◌, Option, none, some, List, [], ◌∷◌, ◌++◌, ltb, ◌==◌, if◌then◌else◌,
  length,
}
use closed_bsd.Btree.{Btree}
use closed_bsd.Devices.Device.{Device, State, disabled, enabled}
use closed_bsd.Devices.Search.{records}
use closed_bsd.Fault.{Result, ok, ◌>>=◌}
use closed_bsd.Text.{Text, codes, snprintf}

-- if (strlen(u.gateway) && (u.ext == 1)) …
abbrev pub route_cmds : Device → List Text
route_cmds u =
    if ltb 0 (length u.gateway) && (u.ext == 1)
    then snprintf 256 (codes "/sbin/route add default " ++ (u.gateway ++ codes " >>/dev/null")) ∷ []
    else []

-- The commands of a device with a static address.
abbrev pub static_cmds : Device → List Text
static_cmds u =
    snprintf 256 (
      codes "/sbin/ifconfig "
      ++ (u.device ++ (codes " " ++ (u.ip ++ (codes " netmask " ++ u.netmask)))))
    ∷ route_cmds u

-- `conf` is whether stat finds /etc/dhclient.conf.
abbrev pub dhcp_cmd : Bool → Device → Text
dhcp_cmd conf u =
    if conf
    then snprintf 256 (codes "/sbin/dhclient -cf /etc/dhclient.conf")
    else snprintf 256 (codes "/sbin/dhclient " ++ u.device)

-- switch (u.id): device 0 is configured statically, whatever u.dhcp is.
unfoldable pub boot_cmds : Bool → Device → List Text
boot_cmds conf u =
    if u.id == 0
    then static_cmds u
    else elim u.dhcp [ disabled ↦ static_cmds u | enabled ↦ dhcp_cmd conf u ∷ [] ]

-- while (db->seq(…) == 0) …
unfoldable pub boot_each : Bool → List (ℕ × Device) → List Text
unfolding boot_cmds
boot_each conf [] = []
boot_each conf ((k, u) ∷ m) = boot_cmds conf u ++ boot_each conf m

abbrev pub is_there : Option Text → Bool
is_there none = false
is_there (some t) = true

module _ (b : Btree Device) where
  unfoldable pub config_devices : State b → Result (State b)
  config_devices s =
      records b s >>= λ m. ok (record s { ran = s.ran ++ boot_each (is_there s.conf) m })
