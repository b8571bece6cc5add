-- ===== src/Saving.antt =====
-- Saving the settings to a floppy disk (`_menu1_sa_action` of closedbsd/config/menu.c).
pub mod Formats
mod Examples
use closed_bsd.Base.{Bool, List, [], ◌∷◌, ◌++◌, if◌then◌else◌}
use closed_bsd.Text.{Text, codes}

-- Whether each command, if it is run, returns 0.
pub record Disk : Type 0 where
  pub mounts : Bool
  pub fdformats : Bool
  pub labels : Bool
  pub newfs_done : Bool
  pub mounts_formatted : Bool

abbrev pub fdformat : Text
fdformat = codes "/sbin/fdformat -y /dev/fd0 >/dev/null"

abbrev pub writetcnp : Text
writetcnp = codes "/sbin/writetcnp"

-- The commands that are run, oldest first. A command that fails ends the function, but for the
-- first.
unfoldable pub save_settings : Disk → List Text
save_settings d =
    codes "/sbin/mount /dev/fd0 /mnt"
    ∷ (if d.mounts
        then codes "/sbin/umount /dev/fd0" ∷ writetcnp ∷ []
        else fdformat
          ∷ (if d.fdformats
              then codes "/sbin/disklabel -w -r /dev/fd0 fd1440 >/dev/null"
                ∷ (if d.labels
                    then codes "/sbin/newfs -T fd1440 /dev/fd0 fd1440 >/dev/null"
                      ∷ (if d.newfs_done
                          then codes "/sbin/mount /dev/fd0 /mnt >/dev/null"
                            ∷ (if d.mounts_formatted then writetcnp ∷ writetcnp ∷ [] else [])
                          else [])
                    else [])
              else []))
