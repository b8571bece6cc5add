-- ===== src/Setup.antt =====
-- The menu of network devices (`dev_list` and `dev_config` of closedbsd/config/devices.c).
pub mod Listed
use closed_bsd.Base.{
  ℕ, ◌+◌, Option, none, some, List, [], ◌∷◌, ltb, ◌==◌, if◌then◌else◌, get_elem?, length,
}
use closed_bsd.Btree.{Btree}
use closed_bsd.Devices.Device.{Device, State}
use closed_bsd.Devices.Search.{device_exist}
use closed_bsd.Devices.Update.{dev_config_dhcp}
use closed_bsd.Fault.{Result, ok, fault, overflow, ◌>>=◌}
use closed_bsd.IfsCfg.Store.{Stack, Answers, ifs_cfg}
use closed_bsd.IfsCfg.{Typed}
use closed_bsd.Rules.Menu.{chop}
use closed_bsd.Text.Lines.{fgets_all}
use closed_bsd.Text.{Text, codes, starts_with}

-- One entry of `menu2`. `fire` is `dev_config` in every entry.
pub record Entry : Type 0 where
  pub prompt : Text
  pub title : Text

abbrev pub ethernet_title : Option ℕ → Text
ethernet_title none = codes "Ethernet Device"
ethernet_title (some id) = codes "Ethernet Device: [configured]"

-- What the user chooses for a device: DHCP, with the host name where one is entered and OK is
-- chosen, a static address, or neither.
pub data Setup : Type 0 where
  dhcp : Option Text → Setup
  static : Stack → Answers → List Typed → Setup
  neither : Setup

module _ (b : Btree Device) where
  unfoldable pub title_of : Text → State b → Result Text
  title_of buf s =
      if starts_with (codes "ppp") buf
      then ok (codes "PPP Device")
      else if starts_with (codes "sl") buf
      then ok (codes "Slip Device")
      else if starts_with (codes "gif") buf
      then ok (codes "IPv6 Device")
      else if starts_with (codes "lo") buf
      then ok (codes "Loopback Device: [configured]")
      else (device_exist b buf s >>= λ id. ok (ethernet_title id))

  -- while (fgets(buf, …)) …, where the table `menu2` has room for `size` entries.
  unfoldable pub entries : ℕ → ℕ → List Text → State b → Result (List Entry)
  entries size i [] s = ok []
  entries size i (buf ∷ bufs) s =
      let rest = entries size (i + 1) bufs s in
      if ltb i size
      then (title_of (chop buf) s >>= λ t.
          rest >>= λ es. ok (record { prompt = chop buf; title = t } ∷ es))
      else fault overflow

  -- `dev_config`
  unfoldable pub dev_config : Text → Setup → State b → Result (State b)
  dev_config device (dhcp host) s = dev_config_dhcp b device host s >>= λ r. ok r.0
  dev_config device (static stack answers typed) s =
      ifs_cfg b stack answers device typed s >>= λ r. ok r.0
  dev_config device neither s = ok s

  -- The menu fires the entries that the user picks, one after another, and goes on with the titles
  -- it has.
  unfoldable pub picks : List Entry → List (ℕ × Setup) → State b → Result (State b)
  unfolding dev_config
  picks es [] s = ok s
  picks es ((k, setup) ∷ chosen) s = elim (get_elem? es k) [
    | none ↦ picks es chosen s
    | some e ↦ (dev_config e.prompt setup s >>= λ s'. picks es chosen s')
  ]

  -- `dev_list`: `names` is the file that /sbin/ifs.sh has written, if it can be opened. `none` is the
  -- result -1.
  unfoldable pub dev_list : Option Text → List (ℕ × Setup) → State b → Result (Option (State b))
  dev_list none chosen s = ok none
  dev_list (some names) chosen s =
      entries 50 0 (fgets_all names) s >>= λ es. picks es chosen s >>= λ s'. ok (some s')
