-- ===== src/Devices/Update.antt =====
-- The operations that write the device database and configure the interface.
use closed_bsd.Base.{ℕ, List, [], ◌∷◌, ◌++◌, Option, none, some, ltb, ◌==◌, if◌then◌else◌, length}
use closed_bsd.Btree.{Btree}
use closed_bsd.Devices.Device.{Device, State, disabled, enabled}
use closed_bsd.Devices.Search.{find, records, next_device_id}
use closed_bsd.Fault.{Result, ok, fault, null, overflow, ◌>>=◌}
use closed_bsd.Text.{Text, codes, snprintf}

-- The results 0 and -1.
pub data Ret : Type 0 where
  success failure : Ret

abbrev ifconfig : Device → Text
ifconfig d =
    snprintf 256
      (codes "/sbin/ifconfig " ++ (d.device ++ (codes " " ++ (d.ip ++ (codes " " ++ d.netmask)))))

-- The commands behind a successful put.
pub configure : Device → List Text
configure d = elim d.dhcp [
  | disabled ↦
      if d.ext == 1
      then ifconfig d
        ∷ codes "/sbin/route delete default >>/dev/null"
        ∷ snprintf 256 (codes "/sbin/route add default " ++ (d.gateway ++ codes " >>/dev/null"))
        ∷ []
      else ifconfig d ∷ []
  | enabled ↦ snprintf 256 (codes "/sbin/dhclient " ++ (d.device ++ codes "\n")) ∷ []
]

-- What write_dhcp_conf prints.
abbrev dhcp_conf : Text → Text → Text
dhcp_conf hostname device =
    codes "interface \""
    ++ (device ++ (codes "\" {\n\tsend host-name \"" ++ (hostname ++ codes "\";\n}\n")))

-- The record that dev_config stores where the user asks for DHCP.
abbrev pub dhcp_device : ℕ → Text → Device
dhcp_device id device = record {
  id = id;
  device = device;
  ip = [];
  netmask = [];
  gateway = [];
  ext = 1;
  dhcp = enabled;
}

module _ (b : Btree Device) where
  open b use {Db, empty, put, close}

  -- From `put` on, with the handle open.
  unfoldable pub store_open : Device → Db → State b → State b × Ret
  unfolding configure
  store_open d db s = elim (put db d.id d) [
    | none ↦ (record s { file = some db }, failure)
    | some db' ↦
        let (left, closed) = close db' in
        if closed
        then (record s { file = some left; ran = s.ran ++ configure d }, success)
        else (record s { file = some left }, failure)
  ]

  abbrev pub or_create : Option Db → Db
  or_create none = empty
  or_create (some db) = db

  unfoldable pub insert_device : Device → State b → Result (State b × Ret)
  unfolding store_open
  insert_device d s = if s.opens then ok (store_open d (or_create s.file) s) else fault null

  -- The body of the loop where it stops. The result of `insert_device` is not read.
  unfoldable pub clear_found : Option Device → State b → Result (State b × Ret)
  unfolding insert_device
  clear_found none s = ok (s, failure)
  clear_found (some d) s = insert_device (record d { ext = 0 }) s >>= λ r. ok (r.0, success)

  unfoldable pub unset_ext : ℕ → State b → Result (State b × Ret)
  unfolding clear_found
  unset_ext device_id s = records b s >>= λ m. clear_found (find (λ d. d.id == device_id) m) s

  -- A null stream is handed to fclose.
  unfoldable pub write_dhcp_conf : Text → Text → State b → Result (State b)
  write_dhcp_conf hostname device s =
      if s.conf_opens then ok (record s { conf = some (dhcp_conf hostname device) }) else fault null

  abbrev pub conf_if_asked : Option Text → Text → State b → Result (State b)
  conf_if_asked none device s = ok s
  conf_if_asked (some hostname) device s =
      if ltb 1 (length hostname) then write_dhcp_conf hostname device s else ok s

  -- dev_config, where the user asks for DHCP. `host` is the hostname that the user typed, if the
  -- user chose OK.
  unfoldable pub dev_config_dhcp : Text → Option Text → State b → Result (State b × Ret)
  unfolding insert_device write_dhcp_conf
  dev_config_dhcp device host s = next_device_id b s >>= λ id.
      (if ltb (length device) 6 then ok (dhcp_device id device) else fault overflow) >>= λ d.
      conf_if_asked host device s >>= λ s'. insert_device d s'
