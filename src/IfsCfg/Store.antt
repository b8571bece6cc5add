-- ===== src/IfsCfg/Store.antt =====
-- What `ifs_cfg` does with the fields when its loop has ended by OK.
use closed_bsd.Base.{ℕ, Bool, true, false, Option, none, some, List, ltb, if◌then◌else◌, length}
use closed_bsd.Btree.{Btree}
use closed_bsd.Devices.Device.{Device, State, disabled}
use closed_bsd.Devices.Search.{device_exist, ext_exist, next_device_id}
use closed_bsd.Devices.Update.{insert_device, unset_ext}
use closed_bsd.Fault.{Result, ok, fault, overflow, ◌>>=◌}
use closed_bsd.IfsCfg.{Fields, Typed, Ended, confirmed, cancelled, waiting, first_fields, rounds}
use closed_bsd.Text.{Text}

-- What the stack holds in `d.id` and `d.ext` before the function sets them.
pub record Stack : Type 0 where
  pub id : ℕ
  pub ext : ℕ

-- The user's answers: whether the device is to be the default gateway, whether that replaces the
-- gateway that is set, and whether the device's record is overwritten.
pub record Answers : Type 0 where
  pub default_gateway : Bool
  pub replace_gateway : Bool
  pub overwrite : Bool

abbrev pub device_of : Text → Fields → ℕ → ℕ → Device
device_of dev d id ext = record {
  id = id;
  device = dev;
  ip = d.ip;
  netmask = d.netmask;
  gateway = d.gateway;
  ext = ext;
  dhcp = disabled;
}

module _ (b : Btree Device) where
  -- Where another gateway is set: unset_ext is called with the id that the stack holds, and `ext`
  -- is left as the stack holds it.
  abbrev pub replaced_ext : Stack → Bool → State b → Result (State b × ℕ)
  replaced_ext stack true s = unset_ext b stack.id s >>= λ r. ok (r.0, stack.ext)
  replaced_ext stack false s = ok (s, 0)

  abbrev pub chosen_ext : Stack → Answers → Option ℕ → State b → Result (State b × ℕ)
  chosen_ext stack answers none s = ok (s, 1)
  chosen_ext stack answers (some i) s = replaced_ext stack answers.replace_gateway s

  -- if (strlen(d.gateway) > 1) …: the value of `d.ext`
  unfoldable pub decide_ext : Stack → Answers → Fields → State b → Result (State b × ℕ)
  decide_ext stack answers d s =
      if ltb 1 (length d.gateway)
      then (if answers.default_gateway
          then (ext_exist b s >>= λ i. chosen_ext stack answers i s)
          else ok (s, 0))
      else ok (s, 0)

  -- switch (dev_id): the results of `insert_device` are not read.
  unfoldable pub store_new : Text → Fields → ℕ → State b → Result (State b)
  store_new dev d ext s =
      next_device_id b s >>= λ id. insert_device b (device_of dev d id ext) s >>= λ r. ok r.0

  unfoldable pub store_old : Text → Fields → ℕ → ℕ → Bool → State b → Result (State b)
  store_old dev d ext id overwrite s =
      if overwrite then (insert_device b (device_of dev d id ext) s >>= λ r. ok r.0) else ok s

  abbrev pub store_at : Text → Fields → ℕ → Bool → Option ℕ → State b → Result (State b)
  store_at dev d ext overwrite none s = store_new dev d ext s
  store_at dev d ext overwrite (some id) s = store_old dev d ext id overwrite s

  -- From the end of the loop on. strcpy writes the name into `char device[6]`.
  unfoldable pub store_fields : Stack → Answers → Text → Fields → State b → Result (State b)
  store_fields stack answers dev d s = decide_ext stack answers d s >>= λ r.
      (if ltb (length dev) 6 then ok dev else fault overflow) >>= λ name.
      device_exist b name r.0 >>= λ id. store_at name d r.1 answers.overwrite id r.0

  abbrev pub finish : Stack → Answers → Text → State b → Ended → Result (State b × Ended)
  finish stack answers dev s (confirmed d) =
      store_fields stack answers dev d s >>= λ s'. ok (s', confirmed d)
  finish stack answers dev s cancelled = ok (s, cancelled)
  finish stack answers dev s (waiting j d) = ok (s, waiting j d)

  -- `ifs_cfg`, on what the user types and answers; how its loop ended is kept.
  unfoldable pub ifs_cfg : Stack → Answers → Text → List Typed → State b → Result (State b × Ended)
  ifs_cfg stack answers dev typed s =
      first_fields b dev s >>= λ d. rounds typed 1 d >>= λ e. finish stack answers dev s e
