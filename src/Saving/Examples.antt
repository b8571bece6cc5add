-- ===== src/Saving/Examples.antt =====
-- A disk that has to be formatted.
use closed_bsd.Base.{◌≡◌, true, false}
use closed_bsd.Saving.Formats.{is_run, save_settings-is_run}
use closed_bsd.Saving.{Disk, fdformat, writetcnp, save_settings}

abbrev blank_disk : Disk
blank_disk = record {
  mounts = false;
  fdformats = true;
  labels = true;
  newfs_done = true;
  mounts_formatted = true;
}

save_settings-is_run_example :
    (is_run fdformat (save_settings blank_disk) ≡ true)
    × (is_run writetcnp (save_settings blank_disk) ≡ true)
save_settings-is_run_example = save_settings-is_run blank_disk
