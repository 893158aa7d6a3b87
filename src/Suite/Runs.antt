-- ===== src/Suite/Runs.antt =====
-- The tests of src/sharemanager.rs that run a whole share-manager.
use hcloud_csi_rwx.Prelude.{
  String, ◌≡◌, refl, Bool, true, false, not, ◌&&◌, Option, none, some, [], ◌∷◌, is_some,
}
use hcloud_csi_rwx.Prelude.Decimal.{show_ℕ}
use hcloud_csi_rwx.Kube.{Result}
use hcloud_csi_rwx.Kube.Session.{Session, ◌>>=◌}
use hcloud_csi_rwx.Map.{lookup}
use hcloud_csi_rwx.Exec.Fake.{
  World, new_fake, ran, failing_spawn, contains_text, fake_machine, fake_run, fake_spawn,
  first_answer, child_is_running, usize_max,
}
use hcloud_csi_rwx.Share.Config.{
  render, open_clients, validate_config_value, is_config_char, nfs_endpoint,
}
use hcloud_csi_rwx.Share.Block.{
  wait_for_device, ensure_filesystem, mount_device, unmount_device, set_export_mode,
  valid_export_mode,
}
use hcloud_csi_rwx.Share.Machine.{Manager}
use hcloud_csi_rwx.Share.Manager.{
  Settings, validate, pseudo_path, share_endpoint, export_config, ExitReason, is_clean, shutdown,
  prepare_volume, prepare_device, start_ganesha, health_loop, serve, started, prepared, run,
}
use hcloud_csi_rwx.Suite.Disk.{
  Disk, machine, with_files, on_fake, fake_after, is_err, err_contains, ok_where, is_text, every,
}
use hcloud_csi_rwx.Suite.Managers.{settings}

-- A run whose signal to end is there from the start.
abbrev ran_until_signal :
    Settings
    → Session (Manager (World Disk))
    → Result String (Option ExitReason) × Session (Manager (World Disk))
ran_until_signal cfg = run machine cfg (shutdown ∷ [])

abbrev ended_clean : Option ExitReason → Bool
ended_clean none = false
ended_clean (some reason) = is_clean reason

unfoldable run_happy_path_until_signal : Bool
run_happy_path_until_signal =
    let r = ran_until_signal (settings "/tmp/sm-run-ok") (on_fake new_fake) in
    every (
      ok_where ended_clean r.0
      ∷ ran (fake_after r) "ganesha.nfsd"
      ∷ is_text "10.0.0.1:/vol" r.1.world.state.endpoint
      ∷ [])

abbrev bad : Settings
bad = record (settings "/tmp/sm-run-bad") { export_mode = "zzz" }

unfoldable run_rejects_invalid_settings : Bool
run_rejects_invalid_settings = is_err (ran_until_signal bad (on_fake new_fake)).0

unfoldable run_reports_ganesha_start_failure : Bool
run_reports_ganesha_start_failure =
    let r =
      ran_until_signal (settings "/tmp/sm-run-spawnfail") (on_fake (failing_spawn new_fake)) in
    every
      (err_contains "ganesha" r.0 ∷ not r.1.world.state.ready ∷ is_some r.1.world.state.error ∷ [])

abbrev mounted : Settings
mounted = record (settings "/tmp/sm-run-unmount") { skip_mount = false; device = "/tmp/sm-run-dev" }

unfoldable run_unmounts_on_failure_when_it_mounted : Bool
run_unmounts_on_failure_when_it_mounted =
    let before = with_files ("/tmp/sm-run-dev" ∷ []) (failing_spawn new_fake) in
    let r = ran_until_signal mounted before in is_err r.0 && ran (fake_after r) "umount"

abbrev missing : Settings
missing = record (settings "/tmp/sm-run-prepfail") {
  skip_mount = false;
  device = "/dev/missing-xyz";
  device_timeout = 0;
}

unfoldable run_propagates_prepare_failure : Bool
run_propagates_prepare_failure =
    let r = ran_until_signal missing (on_fake new_fake) in
    is_err r.0 && is_some r.1.world.state.error

-- The tests of runs pass.
runs_pass :
    every (
      run_happy_path_until_signal ∷ run_rejects_invalid_settings ∷ run_reports_ganesha_start_failure
      ∷ run_unmounts_on_failure_when_it_mounted ∷ run_propagates_prepare_failure ∷ [])
    ≡ true
unfolding run_happy_path_until_signal run_rejects_invalid_settings run_reports_ganesha_start_failure
    run_unmounts_on_failure_when_it_mounted run_propagates_prepare_failure run validate
    validate_config_value is_config_char valid_export_mode prepared started serve prepare_volume
    prepare_device wait_for_device ensure_filesystem mount_device unmount_device set_export_mode
    start_ganesha export_config pseudo_path share_endpoint nfs_endpoint render open_clients
    health_loop contains_text show_ℕ lookup fake_machine fake_run fake_spawn first_answer
    child_is_running new_fake usize_max ◌>>=◌
runs_pass = refl
