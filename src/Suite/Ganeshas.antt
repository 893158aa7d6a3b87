-- ===== src/Suite/Ganeshas.antt =====
-- The tests of src/nfs.rs.
use hcloud_csi_rwx.Prelude.{
  String, ◌≡◌, refl, Bool, true, not, ◌&&◌, [], ◌∷◌, str_eq, unwrap_or, map,
}
use hcloud_csi_rwx.Prelude.Decimal.{show_ℕ}
use hcloud_csi_rwx.Kube.{ok}
use hcloud_csi_rwx.Kube.Session.{Session, Try, ◌>>=◌, ◌>>◌}
use hcloud_csi_rwx.Map.{lookup}
use hcloud_csi_rwx.Exec.Fake.{
  World, new_fake, ran, alive_for, failing_spawn, contains_text, fake_machine, fake_spawn,
  child_is_running, usize_max,
}
use hcloud_csi_rwx.Share.Config.{
  ExportConfig, default_config, render, open_clients, validate_config_value, is_config_char,
  nfs_endpoint,
}
use hcloud_csi_rwx.Share.Machine.{Manager, ask}
use hcloud_csi_rwx.Share.Manager.{
  Settings, default_settings, export_config, pseudo_path, config_path, start_ganesha, stop_ganesha,
  child_running,
}
use hcloud_csi_rwx.Share.Children.Reaped.{drop_ganesha}
use hcloud_csi_rwx.Suite.Disk.{
  Disk, machine, on_fake, fake_after, is_ok, is_err, err_contains, every,
}

unfoldable endpoint_joins_ip_and_pseudo : Bool
endpoint_joins_ip_and_pseudo = str_eq (nfs_endpoint "10.0.0.1" "/vol") "10.0.0.1:/vol"

unfoldable config_value_validation : Bool
config_value_validation = every (
    is_ok (validate_config_value "pvc-1234")
    ∷ is_ok (validate_config_value "10.0.0.0/8, 192.168.0.0/16")
    ∷ is_ok (validate_config_value "*")
    ∷ is_err (validate_config_value "")
    ∷ is_err (validate_config_value "a;\nEXPORT {")
    ∷ [])

abbrev unrestricted : String → Bool
unrestricted clients =
    let r = render (record default_config { allowed_clients = clients }) in
    not (contains_text "CLIENT {" r) && contains_text "Access_Type = RW;" r

unfoldable render_open_export_has_no_client_block : Bool
render_open_export_has_no_client_block = unrestricted "*" && unrestricted "0.0.0.0/0"

unfoldable render_metrics_toggle : Bool
render_metrics_toggle =
    let shown = render default_config in
    let off = render (record default_config { monitoring_port = 0 }) in
    every (
      contains_text "Enable_Metrics = true;" shown
      ∷ contains_text "Monitoring_Port = 9587;" shown
      ∷ not (contains_text "Enable_Metrics" off)
      ∷ not (contains_text "Monitoring_Port" off)
      ∷ [])

abbrev all_fields : ExportConfig
all_fields = record {
  export_id = 7;
  export_path = "/export/x";
  pseudo_path = "/x";
  lease_lifetime = 30;
  grace_period = 45;
  allowed_clients = "10.1.0.0/16";
  monitoring_port = 1234;
}

unfoldable render_interpolates_all_fields : Bool
render_interpolates_all_fields =
    let r = render all_fields in
    every (
      map (λ needle. contains_text needle r)
        ("Export_Id = 7;" ∷ "Path = /export/x;" ∷ "Pseudo = /x;" ∷ "Lease_Lifetime = 30;"
          ∷ "Grace_Period = 45;" ∷ "Filesystem_id = 7.0;" ∷ "Clients = 10.1.0.0/16;"
          ∷ "Monitoring_Port = 1234;" ∷ "RecoveryBackend = hcloud;" ∷ "Name = VFS;" ∷ []))

-- Settings with the directory of a ganesha and the configuration `ExportConfig::default()`.
abbrev pub ganesha_in : String → Settings
ganesha_in dir = record default_settings { volume = ""; ganesha_dir = dir }

exports_default : (dir : String) → export_config (ganesha_in dir) ≡ default_config
unfolding export_config pseudo_path
exports_default dir = refl

-- `Ganesha::new`, and `start` with the default configuration.
abbrev pub new_ganesha : Settings → Try (Manager (World Disk)) String (Unit {0})
new_ganesha cfg = ask (λ w. (ok tt, (machine.create_dir_all cfg.ganesha_dir w).1))

abbrev pub start_new : Settings → Try (Manager (World Disk)) String (Unit {0})
start_new cfg = do new_ganesha cfg; start_ganesha machine cfg

abbrev manager_after : {A : Type 0} → A × Session (Manager (World Disk)) → Manager (World Disk)
manager_after (a, s) = s.world

abbrev in_start : Settings
in_start = ganesha_in "/tmp/hcloud-ganesha-start"

unfoldable ganesha_start_writes_config_and_spawns : Bool
ganesha_start_writes_config_and_spawns =
    let r = start_new in_start (on_fake new_fake) in
    let g = manager_after r in
    let written = unwrap_or (lookup (config_path machine in_start) g.outside.files.files) "" in
    let stopped = manager_after (stop_ganesha machine in_start {E = String} r.1) in
    every (
      is_ok r.0
      ∷ contains_text "EXPORT" written
      ∷ ran (fake_after r) "ganesha.nfsd -F -p /var/run/ganesha.pid -f"
      ∷ (child_running machine in_start g).0
      ∷ not (child_running machine in_start stopped).0
      ∷ [])

abbrev in_fail : Settings
in_fail = ganesha_in "/tmp/hcloud-ganesha-fail"

unfoldable ganesha_reports_spawn_failure : Bool
ganesha_reports_spawn_failure =
    let r = start_new in_fail (on_fake (failing_spawn new_fake)) in
    err_contains "failed to spawn ganesha.nfsd" r.0
    && not (child_running machine in_fail (manager_after r)).0

abbrev in_dead : Settings
in_dead = ganesha_in "/tmp/hcloud-ganesha-dead"

unfoldable ganesha_detects_dead_process : Bool
ganesha_detects_dead_process =
    let r = start_new in_dead (on_fake (alive_for 1 new_fake)) in
    let first = child_running machine in_dead (manager_after r) in
    every (is_ok r.0 ∷ first.0 ∷ not (child_running machine in_dead first.1).0 ∷ [])

abbrev in_noop : Settings
in_noop = ganesha_in "/tmp/hcloud-ganesha-noop"

unfoldable ganesha_stop_without_start_is_noop : Bool
ganesha_stop_without_start_is_noop =
    let r = (do new_ganesha in_noop; stop_ganesha machine in_noop) (on_fake new_fake) in
    not (child_running machine in_noop (manager_after r)).0

abbrev in_drop : Settings
in_drop = ganesha_in "/tmp/hcloud-ganesha-drop"

-- The handle is dropped after the start.
unfoldable ganesha_drop_kills_child : Bool
ganesha_drop_kills_child =
    let r = start_new in_drop (on_fake new_fake) in
    let dropped = drop_ganesha machine (manager_after r) in
    is_ok r.0 && ran dropped.outside.fake "ganesha.nfsd"

-- The tests of the configuration pass.
config_passes :
    every (
      endpoint_joins_ip_and_pseudo ∷ config_value_validation
      ∷ render_open_export_has_no_client_block ∷ render_metrics_toggle
      ∷ render_interpolates_all_fields ∷ [])
    ≡ true
unfolding endpoint_joins_ip_and_pseudo config_value_validation
    render_open_export_has_no_client_block render_metrics_toggle render_interpolates_all_fields
    nfs_endpoint validate_config_value is_config_char render open_clients contains_text show_ℕ
config_passes = refl

-- The tests of the process pass.
process_passes :
    every (
      ganesha_start_writes_config_and_spawns ∷ ganesha_reports_spawn_failure
      ∷ ganesha_detects_dead_process ∷ ganesha_stop_without_start_is_noop ∷ [])
    ≡ true
unfolding ganesha_start_writes_config_and_spawns ganesha_reports_spawn_failure
    ganesha_detects_dead_process ganesha_stop_without_start_is_noop ganesha_drop_kills_child
    start_ganesha export_config pseudo_path render open_clients contains_text show_ℕ lookup
    fake_machine fake_spawn child_is_running new_fake usize_max ◌>>=◌
process_passes = refl
