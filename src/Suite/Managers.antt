-- ===== src/Suite/Managers.antt =====
-- The tests of src/sharemanager.rs: the settings, the preparation of the volume, and the health loop.
use hcloud_csi_rwx.Prelude.{
  String, ◌≡◌, refl, Bool, true, false, not, ◌&&◌, ◌==◌, Option, some, [], ◌∷◌, str_eq, is_some,
  replicate,
}
use hcloud_csi_rwx.Prelude.Decimal.{show_ℕ}
use hcloud_csi_rwx.Kube.{ok, err}
use hcloud_csi_rwx.Kube.Session.{◌>>=◌}
use hcloud_csi_rwx.Map.{lookup}
use hcloud_csi_rwx.Exec.{outcome_failed}
use hcloud_csi_rwx.Exec.Fake.{
  FakeExec, World, new_fake, ran, on, alive_for, contains_text, fake_machine, fake_run, fake_spawn,
  first_answer, child_is_running, usize_max,
}
use hcloud_csi_rwx.Share.Api.{new_state}
use hcloud_csi_rwx.Share.Config.{
  render, open_clients, validate_config_value, is_config_char, nfs_endpoint,
}
use hcloud_csi_rwx.Share.Block.{
  wait_for_device, ensure_filesystem, make_filesystem, mount_device, set_export_mode, health_check,
  valid_export_mode,
}
use hcloud_csi_rwx.Share.Machine.{Manager}
use hcloud_csi_rwx.Share.Manager.{
  Settings, default_settings, validate, pseudo_path, share_endpoint, export_config, ExitReason,
  signal, ganesha_died, volume_unhealthy, is_clean, reason_message, set_error, mark_ready, tick,
  shutdown, prepare_volume, prepare_device, start_ganesha, health_tick, health_loop, print_config,
  exit_code,
}
use hcloud_csi_rwx.Suite.Disk.{
  Disk, machine, with_files, on_fake, fake_after, is_ok, is_err, err_contains, ok_where, is_text,
  every,
}
use hcloud_csi_rwx.Suite.Ganeshas.{ganesha_in, start_new}

-- The settings of a test in the directory.
abbrev pub settings : String → Settings
settings dir = record default_settings { ganesha_dir = dir; mount_point = "/tmp" }

unfoldable validation_rejects_injection_and_bad_mode : Bool
validation_rejects_injection_and_bad_mode = every (
    is_ok (validate default_settings)
    ∷ is_err (validate (record default_settings { volume = "a;\nEXPORT {" }))
    ∷ err_contains "invalid --export-mode"
        (validate (record default_settings { export_mode = "0999" }))
    ∷ is_err (validate (record default_settings { allowed_clients = "\"x\"" }))
    ∷ is_err (validate (record default_settings { mount_point = "" }))
    ∷ [])

unfoldable derived_values : Bool
derived_values =
    let s = record default_settings { volume = "pvc-1"; svc_ip = "10.1.2.3" } in
    let cfg = export_config s in
    every (
      str_eq (pseudo_path s) "/pvc-1"
      ∷ str_eq (share_endpoint s) "10.1.2.3:/pvc-1"
      ∷ str_eq cfg.pseudo_path "/pvc-1"
      ∷ (cfg.export_id == 1)
      ∷ (cfg.monitoring_port == 9587)
      ∷ [])

unfoldable exit_reason_semantics : Bool
exit_reason_semantics = every (
    is_clean signal
    ∷ not (is_clean ganesha_died)
    ∷ not (is_clean volume_unhealthy)
    ∷ contains_text "ganesha" (reason_message ganesha_died)
    ∷ contains_text "health" (reason_message volume_unhealthy)
    ∷ contains_text "SIGINT" (reason_message signal)
    ∷ [])

unfoldable state_transitions : Bool
state_transitions =
    let failed = set_error "boom" (new_state "v") in
    let up = mark_ready "1.2.3.4:/v" failed in
    let down = set_error "dead" up in
    every (
      not failed.ready
      ∷ is_text "boom" failed.error
      ∷ up.ready
      ∷ not (is_some up.error)
      ∷ is_text "1.2.3.4:/v" up.endpoint
      ∷ not down.ready
      ∷ is_text "dead" down.error
      ∷ [])

abbrev skipping : Settings
skipping = settings "/tmp/sm-prep-skip"

unfoldable prepare_volume_skip_mount_only_chmods : Bool
prepare_volume_skip_mount_only_chmods =
    let r = prepare_volume machine skipping (on_fake new_fake) in
    every (
      ok_where (str_eq skipping.mount_point) r.0
      ∷ ran (fake_after r) "chmod 0777"
      ∷ not (ran (fake_after r) "mkfs")
      ∷ not (ran (fake_after r) "mount -t ext4")
      ∷ [])

abbrev mounting : Settings
mounting = record (settings "/tmp/sm-prep-full") { skip_mount = false; device = "/tmp/sm-prep-dev" }

unfoldable prepare_volume_full_path_formats_and_mounts : Bool
prepare_volume_full_path_formats_and_mounts =
    let fake = on "blkid" (outcome_failed 2) new_fake in
    let r = prepare_volume machine mounting (with_files ("/tmp/sm-prep-dev" ∷ []) fake) in
    every (
      is_ok r.0
      ∷ ran (fake_after r) "mkfs.ext4"
      ∷ ran (fake_after r) "mount -t ext4"
      ∷ ran (fake_after r) "chmod"
      ∷ [])

abbrev missing : Settings
missing = record (settings "/tmp/sm-prep-missing") {
  skip_mount = false;
  device = "/dev/definitely-missing-xyz";
  device_timeout = 0;
}

unfoldable prepare_volume_reports_missing_device : Bool
prepare_volume_reports_missing_device = is_err (prepare_volume machine missing (on_fake new_fake)).0

abbrev is_reason : ExitReason → Option ExitReason → Bool
is_reason signal (some signal) = true
is_reason ganesha_died (some ganesha_died) = true
is_reason volume_unhealthy (some volume_unhealthy) = true
is_reason _ _ = false

-- The manager after ganesha was started in the directory.
abbrev started_in : String → FakeExec → Manager (World Disk)
started_in dir fake = (start_new (ganesha_in dir) (on_fake fake)).1.world

abbrev at_mount : String → Settings
at_mount mount_point = record default_settings { mount_point = mount_point }

unfoldable health_tick_detects_dead_ganesha : Bool
health_tick_detects_dead_ganesha =
    let g = started_in "/tmp/sm-tick-dead" (alive_for 0 new_fake) in
    is_reason ganesha_died (health_tick machine (at_mount "/tmp") g).0

unfoldable health_tick_detects_unwritable_volume : Bool
health_tick_detects_unwritable_volume =
    let g = started_in "/tmp/sm-tick-vol" new_fake in
    is_reason volume_unhealthy (health_tick machine (at_mount "/no/such/mount/point") g).0

unfoldable health_tick_healthy_returns_none : Bool
health_tick_healthy_returns_none =
    let g = started_in "/tmp/sm-tick-ok" new_fake in
    not (is_some (health_tick machine (at_mount "/tmp") g).0)

unfoldable health_loop_exits_on_shutdown_signal : Bool
health_loop_exits_on_shutdown_signal =
    let g = started_in "/tmp/sm-loop-signal" new_fake in
    is_reason signal (health_loop machine (at_mount "/tmp") (shutdown ∷ []) g).0

-- No signal comes; the second tick finds the child gone.
unfoldable health_loop_exits_when_ganesha_dies : Bool
health_loop_exits_when_ganesha_dies =
    let g = started_in "/tmp/sm-loop-dead" (alive_for 1 new_fake) in
    let r = health_loop machine (at_mount "/tmp") (replicate 3 tick) g in
    is_reason ganesha_died r.0 && not r.1.state.ready

unfoldable print_config_renders_the_export : Bool
print_config_renders_the_export =
    let out = print_config "pvc-9" "/export" 3 in
    every (
      contains_text "Export_Id = 3;" out
      ∷ contains_text "Pseudo = /pvc-9;" out
      ∷ contains_text "Path = /export;" out
      ∷ [])

unfoldable exit_code_is_zero_only_for_a_clean_shutdown : Bool
exit_code_is_zero_only_for_a_clean_shutdown = every (
    (exit_code (ok signal) == 0)
    ∷ (exit_code (ok ganesha_died) == 1)
    ∷ (exit_code (ok volume_unhealthy) == 1)
    ∷ (exit_code (err "boom") == 1)
    ∷ [])

-- The tests of values and of the preparation pass.
preparing_passes :
    every (
      validation_rejects_injection_and_bad_mode ∷ derived_values ∷ exit_reason_semantics
      ∷ state_transitions ∷ prepare_volume_skip_mount_only_chmods
      ∷ prepare_volume_full_path_formats_and_mounts ∷ prepare_volume_reports_missing_device
      ∷ print_config_renders_the_export ∷ exit_code_is_zero_only_for_a_clean_shutdown ∷ [])
    ≡ true
unfolding validation_rejects_injection_and_bad_mode derived_values exit_reason_semantics
    state_transitions prepare_volume_skip_mount_only_chmods
    prepare_volume_full_path_formats_and_mounts prepare_volume_reports_missing_device
    print_config_renders_the_export exit_code_is_zero_only_for_a_clean_shutdown validate
    validate_config_value is_config_char valid_export_mode export_config pseudo_path share_endpoint
    nfs_endpoint prepare_volume prepare_device wait_for_device ensure_filesystem make_filesystem
    mount_device set_export_mode print_config render open_clients contains_text show_ℕ lookup
    fake_machine fake_run first_answer new_fake usize_max ◌>>=◌
preparing_passes = refl

-- The tests of the health loop pass.
health_passes :
    every (
      health_tick_detects_dead_ganesha ∷ health_tick_detects_unwritable_volume
      ∷ health_tick_healthy_returns_none ∷ health_loop_exits_on_shutdown_signal
      ∷ health_loop_exits_when_ganesha_dies ∷ [])
    ≡ true
unfolding health_tick_detects_dead_ganesha health_tick_detects_unwritable_volume
    health_tick_healthy_returns_none health_loop_exits_on_shutdown_signal
    health_loop_exits_when_ganesha_dies health_tick health_loop health_check start_ganesha
    export_config pseudo_path render open_clients show_ℕ fake_machine fake_spawn child_is_running
    new_fake usize_max ◌>>=◌
health_passes = refl
