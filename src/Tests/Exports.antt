-- ===== src/Tests/Exports.antt =====
-- The share-manager on a system where every command works and ganesha cannot be started.
use hcloud_csi_rwx.Prelude.{◌≡◌, refl, true, false, some, [], ◌∷◌, str_eq, not, if◌then◌else◌}
use hcloud_csi_rwx.Kube.{ok, err}
use hcloud_csi_rwx.Kube.Session.{Session, exec, ◌>>=◌}
use hcloud_csi_rwx.Share.Api.{new_state}
use hcloud_csi_rwx.Share.Machine.{Machine, Manager, spawn_failed}
use hcloud_csi_rwx.Share.Config.Injection.{
  occurrences, AreAccepted, is_structural, render-occurrences,
}
use hcloud_csi_rwx.Share.Config.{
  open_clients, render, default_config, validate_config_value, is_config_char,
}
use hcloud_csi_rwx.Share.Block.{
  ensure_filesystem, has_filesystem, valid_export_mode, set_export_mode,
}
use hcloud_csi_rwx.Share.Manager.{
  Settings, validate, run, prepared, started, prepare_volume, start_ganesha,
}
use hcloud_csi_rwx.Share.Startup.{probe, ensure_filesystem-exact}

abbrev pub machine : Machine (Unit {0})
machine = record {
  run = λ program args w.
      (ok (record { success = not (str_eq program "blkid"); code = some 2; stdout = "" }), w);
  try_exists = λ path w. (ok true, w);
  canonicalize = λ path w. (ok path, w);
  create_dir_all = λ path w. (ok tt, w);
  write_file = λ path text w. (ok tt, w);
  remove_file = λ path w. (ok tt, w);
  spawn = λ program args w. (err (spawn_failed "no such file"), w);
  child_running = λ w. (false, w);
  start_kill = λ w. w;
  wait_child = λ secs w. (true, w);
  sleep = λ w. w;
  code_text = λ code. "Some(2)";
}

abbrev pub settings : Settings
settings = record {
  device = "/dev/sdb";
  volume = "pvc-1";
  mount_point = "/export";
  api_listen = "0.0.0.0:9500";
  svc_ip = "10.0.0.7";
  ganesha_dir = "/var/run/ganesha";
  device_timeout = 1;
  skip_mount = true;
  lease_lifetime = 60;
  grace_period = 90;
  allowed_clients = "10.0.0.0/8";
  export_mode = "0777";
  monitoring_port = 9587;
}

abbrev manager : Manager (Unit {0})
manager = record { outside = tt; state = new_state "pvc-1"; child = true }

abbrev session : Session (Manager (Unit {0}))
session = record { world = manager; calls = [] }

ensure_filesystem-exact_example : (ensure_filesystem machine "/dev/sdb" session).1.calls ≡ (
    if has_filesystem machine (probe machine "/dev/sdb" session.world)
    then exec "blkid" ("-c" ∷ "/dev/null" ∷ "/dev/sdb" ∷ []) ∷ []
    else exec "mkfs.ext4" ("-F" ∷ "/dev/sdb" ∷ [])
      ∷ exec "blkid" ("-c" ∷ "/dev/null" ∷ "/dev/sdb" ∷ [])
      ∷ [])
ensure_filesystem-exact_example = ensure_filesystem-exact machine "/dev/sdb" session

pub accepted : validate settings ≡ ok tt
unfolding validate validate_config_value is_config_char valid_export_mode
accepted = refl

not_started :
    (run machine settings [] session).0
    ≡ err "failed to spawn ganesha.nfsd: failed to spawn: no such file"
unfolding is_config_char run prepared started prepare_volume start_ganesha validate
    validate_config_value valid_export_mode set_export_mode ◌>>=◌
not_started = refl

old_accepted : AreAccepted "/export" "/" "10.0.0.0/8, 172.16.0.0/12, 192.168.0.0/16"
unfolding validate_config_value is_config_char
old_accepted = (refl, refl, refl)

new_accepted : AreAccepted "/data" "/pvc-1" "10.0.0.0/8"
unfolding validate_config_value is_config_char
new_accepted = (refl, refl, refl)

brace_structural : is_structural "}" ≡ true
unfolding is_structural
brace_structural = refl

alike : open_clients "10.0.0.0/8" ≡ open_clients default_config.allowed_clients
unfolding open_clients
alike = refl

render-occurrences_example :
    occurrences "}" (
      render (record default_config {
        export_path = "/data";
        pseudo_path = "/pvc-1";
        allowed_clients = "10.0.0.0/8";
      }))
    ≡ occurrences "}" (render default_config)
render-occurrences_example =
    render-occurrences "}" default_config "/data" "/pvc-1" "10.0.0.0/8" brace_structural
      old_accepted new_accepted alike
