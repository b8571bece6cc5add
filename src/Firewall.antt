-- ===== src/Firewall.antt =====
-- The firewall menu (closedbsd/config/fwmenu.c): the basic firewall, and the way to the
-- advanced menu.
pub mod Basic
pub mod Menu
mod Examples
use closed_bsd.Base.{
  ℕ, Bool, true, false, Option, none, some, List, [], ◌∷◌, ◌++◌, ◌==◌, if◌then◌else◌, ltb, length,
}
use closed_bsd.Advanced.{Choice, afm_menu}
use closed_bsd.Btree.{Btree}
use closed_bsd.Devices.Device.{Device, State}
use closed_bsd.Devices.Search.{dev_ext, ext_exist}
use closed_bsd.Fault.{Result, ok, fault, null, overflow, ◌>>=◌}
use closed_bsd.Nat.{enable_nat}
use closed_bsd.Rules.Ruleset.{Ruleset, Proto, ip, tcp, udp, icmp, allow, zeroed}
use closed_bsd.Rules.Script.{insert_rule, raw_add_rule}
use closed_bsd.Text.{Text, codes, snprintf, printed}
use closed_bsd.World.{World, rules, nat, fopen_append, fprintf, unlink, system}

-- What the menu returns: its codes, or -1.
pub data Ret : Type 0 where
  done failure : Ret

-- bzero(&r, sizeof(r)); r.cmd = ADD; r.action = ALLOW; r.proto = …; "any" in both addresses.
abbrev pub any_to_any : Proto → Ruleset
any_to_any p = record zeroed {
  action = allow;
  proto = p;
  src = snprintf 128 (codes "any");
  dst = snprintf 128 (codes "any");
}

-- One call of `__insert_rule`, whose result is not read.
abbrev pub insert_any : Proto → World → Result World
insert_any p w = insert_rule (any_to_any p) w >>= λ r. ok r.0

-- The four rules of the basic firewall.
unfoldable pub insert_basic : World → Result World
insert_basic w =
    insert_any ip w >>= λ a. insert_any tcp a >>= λ b. insert_any udp b >>= λ c. insert_any icmp c

-- From the second start of natd on; `save` is the answer to "Save Configuration?".
abbrev pub name_device : Option World → World → Text → Bool → World × Ret
name_device none w device save = (w, failure)
name_device (some w) _ device save =
    let w' = fprintf w nat device in
    ((if save then system w' (codes "/sbin/writetcnp") else w'), done)

unfoldable pub write_nat : Text → Bool → World → World × Ret
write_nat device save w =
    let w₁ = unlink (system w (snprintf 256 (codes "/sbin/natd -n " ++ device))) nat in
    name_device (fopen_append w₁ nat) w₁ device save

-- The case "Basic", with the device that `dev_ext` named. The result of `enable_nat` is not read.
unfoldable pub basic : Text → Bool → World → Result (World × Ret)
basic device save w =
    enable_nat device (system (unlink w rules) (codes "/sbin/ipfw -q flush")) >>= λ e.
    insert_basic e.0 >>= λ w'. ok (write_nat device save w')

abbrev pub basic_ext : Option ℕ → Option Text → Bool → World → Result (World × Ret)
basic_ext none device save w = ok (w, done)
basic_ext (some id) device save w = basic (printed device) save w

module _ (b : Btree Device) where
  -- `main_fw_menu`: `chose` is whether dialog_menu returned 0, `type` the variable that its entries
  -- set, 1 for "Basic" and 2 for "Advanced", and `choices` what the user does in the advanced menu.
  unfoldable pub main_fw_menu :
      Bool → ℕ → List Choice → Bool → State b → World → Result (World × Ret)
  main_fw_menu chose type choices save s w = dev_ext b s >>= λ tmp.
      if chose
      then (if type == 1
          then (ext_exist b s >>= λ id. basic_ext id tmp save w)
          else if type == 2
          then (afm_menu choices w >>= λ w'. ok (w', done))
          else ok (w, done))
      else ok (w, done)
