-- ===== src/Login/Examples.antt =====
-- A concrete login.
use closed_bsd.Base.{◌≡◌, ◌↔◌, Option, none, some, List, ◌++◌, arith, if◌then◌else◌}
use closed_bsd.Devices.Device.{strcmp_eq}
use closed_bsd.Fault.{ok}
use closed_bsd.Login.Granted.{Knows, login-shell}
use closed_bsd.Login.{Event, shell, login}
use closed_bsd.Text.{Text, codes}

-- A password file with root alone.
abbrev getpwnam : Text → Option Text
getpwnam user = if strcmp_eq user (codes "root") then some (codes "abSECRET") else none

-- In place of crypt, the salt in front of the text.
abbrev crypt : Text → Text → Text
crypt pass salt = codes "ab" ++ pass

login-shell_example :
    ((seen : List Event) × (login getpwnam crypt (codes "root") (codes "SECRET")
        ≡ ok (shell, seen)))
    ↔ Knows getpwnam crypt (codes "root") (codes "SECRET")
login-shell_example =
    login-shell getpwnam crypt (codes "root") (codes "SECRET") (omega arith) (omega arith)
