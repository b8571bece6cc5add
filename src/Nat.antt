-- ===== src/Nat.antt =====
-- Network address translation (closedbsd/config/nat.c): the script /etc/nat that names the external
-- device, and the reload of the packet filter. Its `ruleset` is the one of closedbsd/init/rules.c
-- behind a flush.
pub mod Reload
use closed_bsd.Base.{ℕ, Bool, true, false, Option, none, some, ◌++◌, ◌==◌, if◌then◌else◌}
use closed_bsd.Boot.{load_ruleset}
use closed_bsd.Btree.{Btree}
use closed_bsd.Devices.Device.{Device, State}
use closed_bsd.Devices.Search.{dev_ext, ext_exist}
use closed_bsd.Fault.{Result, ok, fault, null, ◌>>=◌}
use closed_bsd.Text.{Text, codes, snprintf, printed}
use closed_bsd.World.{World, nat, fopen_append, fprintf, unlink, system}

-- The results 0 (or the menu's codes) and -1.
pub data Ret : Type 0 where
  success failure : Ret

-- `ruleset`; none of its callers reads its result.
unfoldable pub reload : World → Result World
reload w = load_ruleset (system w (codes "/sbin/ipfw -q flush")) >>= λ r. ok r.0

abbrev pub natd : Text → Text
natd device = snprintf 256 (codes "/sbin/natd -n " ++ (device ++ codes "\n"))

-- `enable_nat`, with the stream that its fopen returned, or null.
abbrev pub enable_with : Option World → World → Text → Result (World × Ret)
enable_with none w device = ok (w, failure)
enable_with (some w) _ device =
    reload (system (fprintf w nat (device ++ codes "\n")) (natd device)) >>= λ w'. ok (w', success)

unfoldable pub enable_nat : Text → World → Result (World × Ret)
enable_nat device w = enable_with (fopen_append (unlink w nat) nat) (unlink w nat) device

-- `disable_nat`: the command "/sbin/killall -9 natd" is printed into a buffer and never run.
unfoldable pub disable_nat : World → Result World
disable_nat w = reload (unlink w nat)

-- The device is NULL where no device is external.
abbrev pub enable_ext : Option ℕ → Result (Option Text) → World → Result (World × Ret)
enable_ext none device w = ok (w, failure)
enable_ext (some id) device w = device >>= λ d. enable_nat (printed d) w >>= λ r. ok (r.0, success)

module _ (b : Btree Device) where
  -- `nat_window`: `chose` is whether dialog_menu returned 0, and `choice` the variable `nat` that
  -- the menu's entries set.
  unfoldable pub nat_window : Bool → ℕ → State b → World → Result (World × Ret)
  nat_window chose choice s w =
      if chose
      then (if choice == 1
          then (ext_exist b s >>= λ id. enable_ext id (dev_ext b s) w)
          else if choice == 2
          then (disable_nat w >>= λ w'. ok (w', success))
          else ok (w, success))
      else ok (w, success)
