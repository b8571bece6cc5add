-- ===== src/Passwd/Examples.antt =====
-- A password file of two accounts.
use closed_bsd.Base.{◌<◌, ◌≡◌, ◌+◌, ◌*◌, refl, ℕ, true, some, [], ◌∷◌, map, arith}
use closed_bsd.Fault.{ok}
use closed_bsd.Passwd.Rewritten.{
  master_line, Account, IsAccount, file, replaced, set_passwd-replaced,
}
use closed_bsd.Passwd.Salt.{to64, value, places, value-to64}
use closed_bsd.Passwd.{Entry, Files, pwd_mkdb, writetcnp, set_passwd, success}
use closed_bsd.Text.Cat.{join}
use closed_bsd.Text.{codes, contains}

abbrev root : Account
root = record { user = codes "root"; rest = codes "ab:0:0::0:0:Charlie:/root:/bin/sh" }

abbrev daemon : Account
daemon = record { user = codes "daemon"; rest = codes "*:1:1::0:0:Owner:/root:/sbin/nologin" }

root-IsAccount : IsAccount root
unfolding contains
root-IsAccount = record {
  first = b'r';
  others = codes "oot";
  splits = refl;
  no_colon = refl;
  no_percent = refl;
  no_newline = refl;
  short = omega arith;
}

daemon-IsAccount : IsAccount daemon
unfolding contains
daemon-IsAccount = record {
  first = b'd';
  others = codes "aemon";
  splits = refl;
  no_colon = refl;
  no_percent = refl;
  no_newline = refl;
  short = omega arith;
}

abbrev pw : Entry
pw = record {
  name = codes "root";
  uid = codes "0";
  gid = codes "0";
  gecos = codes "Charlie";
  dir = codes "/root";
  shell = codes "/bin/sh";
}

abbrev files : Files
files = record { master = some (file (root ∷ daemon ∷ [])); tmp = []; tmp_opens = true; ran = [] }

set_passwd-replaced_example :
    set_passwd
      (record { mkdb_starts = true; key_pressed = true; write_starts = true })
      pw
      (codes "cdSECRET")
      files
    ≡ ok (
      record files {
        tmp = [];
        ran =
            pwd_mkdb (
              join (
                map
                  (replaced (codes "root") (master_line pw (codes "cdSECRET")))
                  (root ∷ daemon ∷ [])))
            ∷ writetcnp
            ∷ [];
      },
      success,
    )
set_passwd-replaced_example =
    set_passwd-replaced pw (codes "cdSECRET") (root ∷ daemon ∷ []) files
      (root-IsAccount, (daemon-IsAccount, tt)) refl refl (omega arith)

value-to64_example :
    (r : ℕ) × (12345678 ≡ value (to64 12345678 3) + places 3 * r)
    × (value (to64 12345678 3) < places 3)
value-to64_example = value-to64 12345678 3
