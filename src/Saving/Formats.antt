-- ===== src/Saving/Formats.antt =====
-- When a disk is formatted, and when the settings are written.
use closed_bsd.Base.{◌≡◌, arith, Bool, not, ◌&&◌, ◌||◌, false, List, [], ◌∷◌}
use closed_bsd.Devices.Device.{strcmp_eq}
use closed_bsd.Saving.{Disk, fdformat, writetcnp, save_settings}
use closed_bsd.Text.{Text}

abbrev pub is_run : Text → List Text → Bool
is_run cmd [] = false
is_run cmd (c ∷ cs) = strcmp_eq c cmd || is_run cmd cs

-- A disk is formatted exactly if it cannot be mounted as it is, and the settings are written
-- exactly if it can, or if it has been formatted, labelled, given a file system and mounted.
pub save_settings-is_run :
    (d : Disk)
    → (is_run fdformat (save_settings d) ≡ not d.mounts)
      × (is_run writetcnp (save_settings d)
          ≡ (d.mounts || (d.fdformats && d.labels && d.newfs_done && d.mounts_formatted)))
unfolding save_settings strcmp_eq
save_settings-is_run d = ground arith
