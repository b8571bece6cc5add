-- ===== src/Login.antt =====
-- The login at the console (the child in `do_single` of closedbsd/init/init.c). The password file and
-- crypt(3) are libc's: they are parameters.
pub mod Granted
mod Examples
use closed_bsd.Base.{ℕ, Option, none, some, List, [], ◌∷◌, ◌++◌, leb, ltb, length, if◌then◌else◌}
use closed_bsd.Devices.Device.{strcmp_eq}
use closed_bsd.Fault.{Result, ok, fault, overflow, ◌>>=◌}
use closed_bsd.Text.{Text, codes}

-- What becomes of the child: it executes the shell, or exits with `rv`.
pub data Child : Type 0 where
  shell : Child
  exited : ℕ → Child

-- What the child prints and runs on the console, oldest first.
pub data Event : Type 0 where
  printed : Text → Event
  ran : Text → Event

module _ (getpwnam : Text → Option Text) (crypt : Text → Text → Text) where
  -- if (pwd) …, with the password of the entry that getpwnam found. An entry without a password
  -- gets a shell.
  abbrev pub check : Text → Option Text → Child × List Event
  check pass none = (exited 10, printed (codes "invalid login\n\n") ∷ [])
  check pass (some salt) =
      if leb (length salt) 0
      then (
        shell,
        ran (codes "/sbin/cat /etc/motd")
            ∷ printed (codes "please set the root password with 'passwd'\n\n")
            ∷ [],
      )
      else if strcmp_eq (crypt pass salt) salt
      then (shell, ran (codes "/sbin/cat /etc/motd") ∷ [])
      else (exited 10, printed (codes "invalid login\n\n") ∷ [])

  -- scanf("%s", user) writes into `char user[128]`.
  unfoldable pub login : Text → Text → Result (Child × List Event)
  login user pass =
      if ltb (length user) 128
      then ok (if leb (length user) 0 then (exited 10, []) else check pass (getpwnam user))
      else fault overflow
