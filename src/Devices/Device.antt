-- ===== src/Devices/Device.antt =====
-- `struct device` of closedbsd/config/db.h, and the state that the device code works on.
use closed_bsd.Base.{ℕ, Bool, true, false, ◌&&◌, List, [], ◌∷◌, Option, ◌==◌}
use closed_bsd.Btree.{Btree}
use closed_bsd.Text.{Text}

-- enum { DHCP_DISABLED, DHCP_ENABLED }
pub data Dhcp : Type 0 where
  disabled enabled : Dhcp

pub record Device : Type 0 where
  pub id : ℕ
  pub device : Text  -- char [6]
  pub ip : Text  -- char [16]
  pub netmask : Text  -- char [16]
  pub gateway : Text  -- char [16]
  pub ext : ℕ
  pub dhcp : Dhcp

-- !strcmp(a, b)
unfoldable pub strcmp_eq : Text → Text → Bool
strcmp_eq [] [] = true
strcmp_eq (c ∷ cs) (d ∷ ds) = c == d && strcmp_eq cs ds
strcmp_eq _ _ = false

module _ (b : Btree Device) where
  open b use {Db}

  pub record State : Type 0 where
    pub file : Option Db  -- /etc/devices.db, if it exists
    pub opens : Bool  -- whether dbopen may open it
    pub conf : Option Text  -- /etc/dhclient.conf, if it exists
    pub conf_opens : Bool  -- whether fopen may open it
    pub ran : List Text  -- the commands run, oldest first
