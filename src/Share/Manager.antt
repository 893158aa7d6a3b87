-- ===== src/Share/Manager.antt =====
-- The share-manager: src/sharemanager.rs, with the lifecycle of ganesha of src/nfs.rs.
use hcloud_csi_rwx.Prelude.{
  ℕ, String, Bool, true, false, Option, none, some, List, [], ◌∷◌, ◌*◌, format, if◌then◌else◌,
}
use hcloud_csi_rwx.Kube.{Result, ok, err}
use hcloud_csi_rwx.Kube.Session.{
  Try, pure, fail, lift, attempt, map_err, ◌>>=◌, ◌>>◌, spawn, write_file,
}
use hcloud_csi_rwx.Share.Config.{
  validate_config_value, ExportConfig, default_config, render, nfs_endpoint,
}
use hcloud_csi_rwx.Share.Api.{ShareState}
use hcloud_csi_rwx.Share.Machine.{exec_error_text, Machine, Manager, ask, request, update}
use hcloud_csi_rwx.Share.Block.{
  valid_export_mode, wait_for_device, ensure_filesystem, mount_device, unmount_device,
  set_export_mode, health_check,
}

pub record Settings : Type 0 where
  pub device : String
  pub volume : String
  pub mount_point : String
  pub api_listen : String
  pub svc_ip : String
  pub ganesha_dir : String
  pub device_timeout : ℕ
  pub skip_mount : Bool
  pub lease_lifetime : ℕ
  pub grace_period : ℕ
  pub allowed_clients : String
  pub export_mode : String
  pub monitoring_port : ℕ

-- `Settings::default`
abbrev pub default_settings : Settings
default_settings = record {
  device = "/export";
  volume = "vol";
  mount_point = "/export";
  api_listen = "0.0.0.0:9500";
  svc_ip = "10.0.0.1";
  ganesha_dir = "/var/run/ganesha";
  device_timeout = 120;
  skip_mount = true;
  lease_lifetime = 60;
  grace_period = 90;
  allowed_clients = "10.0.0.0/8, 172.16.0.0/12, 192.168.0.0/16";
  export_mode = "0777";
  monitoring_port = 9587;
}

abbrev pub passes : Result String (Unit {0}) → Bool
passes (ok _) = true
passes (err e) = false

abbrev pub and_check :
    Result String (Unit {0}) → Result String (Unit {0}) → Result String (Unit {0})
and_check (ok _) r = r
and_check (err e) r = err e

-- `Settings::validate`
unfoldable pub validate : Settings → Result String (Unit {0})
validate cfg = and_check (validate_config_value cfg.volume) (
    and_check (validate_config_value cfg.mount_point) (
      and_check (validate_config_value cfg.allowed_clients) (
        if valid_export_mode cfg.export_mode
        then ok tt
        else err (
            format
              ("invalid --export-mode " ∷ cfg.export_mode ∷ ", expected octal like 0777" ∷ [])))))

unfoldable pub pseudo_path : Settings → String
pseudo_path cfg = format ("/" ∷ cfg.volume ∷ [])

unfoldable pub export_config : Settings → ExportConfig
export_config cfg = record {
  export_id = 1;
  export_path = cfg.mount_point;
  pseudo_path = pseudo_path cfg;
  lease_lifetime = cfg.lease_lifetime;
  grace_period = cfg.grace_period;
  allowed_clients = cfg.allowed_clients;
  monitoring_port = cfg.monitoring_port;
}

unfoldable pub share_endpoint : Settings → String
share_endpoint cfg = nfs_endpoint cfg.svc_ip (pseudo_path cfg)

unfoldable pub print_config : String → String → ℕ → String
print_config volume mount_point export_id = render (record default_config {
  export_id = export_id;
  export_path = mount_point;
  pseudo_path = format ("/" ∷ volume ∷ []);
})

pub data ExitReason : Type 0 where
  signal ganesha_died volume_unhealthy : ExitReason

abbrev pub is_clean : ExitReason → Bool
is_clean signal = true
is_clean ganesha_died = false
is_clean volume_unhealthy = false

abbrev pub reason_message : ExitReason → String
reason_message signal = "received SIGINT, shutting down"
reason_message ganesha_died = "ganesha process exited"
reason_message volume_unhealthy = "volume health check failed"

-- `set_error` and `mark_unhealthy`
abbrev pub set_error : String → ShareState → ShareState
set_error msg s = record s { ready = false; error = some msg }

abbrev pub mark_ready : String → ShareState → ShareState
mark_ready e s = record s { ready = true; endpoint = some e; error = none }

-- What happens while the health loop waits: its timer, or the signal to shut down.
pub data Event : Type 0 where
  tick shutdown : Event

-- `exit_code`
abbrev pub exit_code : Result String ExitReason → ℕ
exit_code (ok r) = if is_clean r then 0 else 1
exit_code (err e) = 1

module _ {W : Type 0} (m : Machine W) (cfg : Settings) where
  abbrev set_state : {E : Type 0} → (ShareState → ShareState) → Try (Manager W) E (Unit {0})
  set_state f = update (λ w. record w { state = f w.state })

  -- Waits, makes a filesystem and mounts, unless the volume is mounted already.
  unfoldable pub prepare_device : Bool → Try (Manager W) String String
  prepare_device true = pure cfg.mount_point
  prepare_device false = do
    d ← wait_for_device m cfg.device (2 * cfg.device_timeout)
    ensure_filesystem m d
    mount_device m d cfg.mount_point
    pure d

  unfoldable pub prepare_volume : Try (Manager W) String String
  unfolding prepare_device
  prepare_volume = do
    dev ← prepare_device cfg.skip_mount
    set_export_mode m cfg.mount_point cfg.export_mode
    pure dev

  abbrev pub config_path : String
  config_path = format (cfg.ganesha_dir ∷ "/ganesha.conf" ∷ [])

  abbrev pub ganesha_args : List String
  ganesha_args = "-F" ∷ "-p" ∷ "/var/run/ganesha.pid" ∷ "-f" ∷ config_path ∷ []

  -- `Ganesha::start`
  unfoldable pub start_ganesha : Try (Manager W) String (Unit {0})
  start_ganesha = do
    let text = render (export_config cfg)
    request (write_file config_path text) (m.write_file config_path text)
    map_err (λ e. format ("failed to spawn ganesha.nfsd: " ∷ exec_error_text e ∷ []))
        (request (spawn "ganesha.nfsd" ganesha_args) (m.spawn "ganesha.nfsd" ganesha_args))
    update (λ w. record w { child = true })

  -- `Ganesha::is_running`
  abbrev pub child_running : Manager W → Bool × Manager W
  child_running w =
      if w.child
      then (let (up, o) = m.child_running w.outside in (up, record w { outside = o }))
      else (false, w)

  abbrev check_volume : Manager W → Option ExitReason × Manager W
  check_volume w =
      let (healthy, o) = health_check m cfg.mount_point w.outside in
      ((if healthy then none else some volume_unhealthy), record w { outside = o })

  unfoldable pub health_tick : Manager W → Option ExitReason × Manager W
  health_tick w =
      let (up, w') = child_running w in if up then check_volume w' else (some ganesha_died, w')

  abbrev unhealthy : ExitReason → Manager W → Manager W
  unhealthy reason w = record w { state = set_error (reason_message reason) w.state }

  -- The health loop along a sequence of events; `none` where it still runs after them.
  unfoldable pub health_loop : List Event → Manager W → Option ExitReason × Manager W
  health_loop [] w = (none, w)
  health_loop (shutdown ∷ events) w = (some signal, w)
  health_loop (tick ∷ events) w = elim (health_tick w).0 [
    | none ↦ health_loop events (health_tick w).1
    | some reason ↦ (some reason, unhealthy reason (health_tick w).1)
  ]

  -- `Ganesha::stop`
  abbrev pub stop_ganesha : {E : Type 0} → Try (Manager W) E (Unit {0})
  stop_ganesha = update (λ w.
      if w.child
      then record w { child = false; outside = (m.wait_child 5 (m.start_kill w.outside)).1 }
      else w)

  abbrev pub unmount_unless_skipped : {E : Type 0} → Bool → Try (Manager W) E (Unit {0})
  unmount_unless_skipped true = pure tt
  unmount_unless_skipped false = do attempt (unmount_device m cfg.mount_point); pure tt

  -- The end of a step that failed: the error is shown.
  abbrev give_up : String → Try (Manager W) String (Option ExitReason)
  give_up e = set_state (set_error e) >> fail e

  unfoldable pub serve : List Event → Try (Manager W) String (Option ExitReason)
  serve events = do
    set_state (mark_ready (share_endpoint cfg))
    reason ← (λ s. let (r, w) = health_loop events s.world in (ok r, record s { world = w }))
    elim reason [
      | none ↦ pure none
      | some r ↦ (do stop_ganesha; unmount_unless_skipped cfg.skip_mount; pure (some r))
    ]

  unfoldable pub started :
      List Event → Result String (Unit {0}) → Try (Manager W) String (Option ExitReason)
  unfolding serve
  started events (ok _) = serve events
  started events (err e) = do set_state (set_error e); unmount_unless_skipped cfg.skip_mount; fail e

  unfoldable pub prepared :
      List Event → Result String String → Try (Manager W) String (Option ExitReason)
  unfolding started
  prepared events (ok dev) = do
    ask (λ w. (ok tt, (m.create_dir_all cfg.ganesha_dir w).1))
    r ← attempt start_ganesha
    started events r
  prepared events (err e) = give_up e

  -- `run` along the events of its health loop; `none` where it still runs after them. The manager that it
  -- starts from has no child, as `Ganesha::new` leaves it: `boot` of Share.CommandLine.
  unfoldable pub run : List Event → Try (Manager W) String (Option ExitReason)
  unfolding prepared
  run events = do lift (validate cfg); r ← attempt prepare_volume; prepared events r
