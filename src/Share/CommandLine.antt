-- ===== src/Share/CommandLine.antt =====
-- The program of the share-manager: src/main.rs.
pub mod Exits
pub mod Container
use hcloud_csi_rwx.Prelude.{
  str_eq, ℕ, String, Bool, true, false, Option, none, some, List, not, if◌then◌else◌, [], ◌==◌,
}
use hcloud_csi_rwx.Kube.{Result, ok, err}
use hcloud_csi_rwx.Kube.Session.{Session}
use hcloud_csi_rwx.Share.Api.{new_state}
use hcloud_csi_rwx.Share.Server.{Network, serve_api}
use hcloud_csi_rwx.Share.Machine.{Machine, Manager}
use hcloud_csi_rwx.Share.Manager.{Settings, Event, ExitReason, run, print_config, exit_code}

pub record PrintConfig : Type 0 where
  pub volume : String
  pub mount_point : String
  pub export_id : ℕ

pub record Run : Type 0 where
  pub device : String
  pub volume : String
  pub mount_point : String
  pub api_listen : String
  pub svc_ip : String
  pub ganesha_dir : String
  pub device_timeout : ℕ
  pub skip_mount : Bool
  pub lease_lifetime : ℕ
  pub grace_period : ℕ
  pub allowed_clients : String
  pub export_mode : String
  pub monitoring_port : ℕ

pub data Command : Type 0 where
  print : PrintConfig → Command
  start : Run → Command

-- What clap makes of an argument: the text that its flag or its environment variable gives it, the
-- number of so many bits that a text stands for, and whether a switch is on; before them, the
-- subcommand that the arguments name.
pub record Clap : Type 0 where
  pub subcommand : Option String
  pub given : String → Option String → Option String
  pub number : ℕ → String → Result String ℕ
  pub switch : String → String → Result String Bool
  pub missing : String → String
  pub unrecognized : String → String

abbrev and_parsed : {A B : Type 0} → Result String A → (A → Result String B) → Result String B
and_parsed (ok a) f = f a
and_parsed (err e) f = err e

module _ (c : Clap) where
  abbrev or_missing : String → Option String → Result String String
  or_missing long none = err (c.missing long)
  or_missing long (some t) = ok t

  abbrev required : String → String → Result String String
  required long env = or_missing long (c.given long (some env))

  abbrev text_or : Option String → String → String
  text_or none default = default
  text_or (some t) default = t

  abbrev with_default : String → String → String → String
  with_default long env default = text_or (c.given long (some env)) default

  abbrev number_or : ℕ → Option String → ℕ → Result String ℕ
  number_or bits none default = ok default
  number_or bits (some t) default = c.number bits t

  -- The arguments of `print-config`.
  unfoldable pub parse_print : Result String Command
  parse_print = and_parsed (required "volume" "VOLUME_NAME") λ volume.
      and_parsed (number_or 16 (c.given "export-id" none) 1) λ export_id. ok (
        print (record {
          volume = volume;
          mount_point = with_default "mount-point" "VOLUME_MOUNT" "/export";
          export_id = export_id;
        }))

  -- The arguments of `run`.
  unfoldable pub parse_run : Result String Command
  parse_run = and_parsed (required "device" "VOLUME_DEVICE") λ device.
      and_parsed (required "volume" "VOLUME_NAME") λ volume.
        and_parsed (required "svc-ip" "NFS_SVC_IP") λ svc_ip.
          and_parsed (number_or 64 (c.given "device-timeout" (some "DEVICE_TIMEOUT")) 120)
            λ device_timeout. and_parsed (c.switch "skip-mount" "SKIP_MOUNT") λ skip_mount.
              and_parsed (number_or 32 (c.given "lease-lifetime" (some "LEASE_LIFETIME")) 60)
                λ lease_lifetime.
                  and_parsed (number_or 32 (c.given "grace-period" (some "GRACE_PERIOD")) 90)
                    λ grace_period.
                      and_parsed
                        (number_or 16 (c.given "monitoring-port" (some "MONITORING_PORT")) 9587)
                        λ monitoring_port. ok (
                          start (record {
                            device = device;
                            volume = volume;
                            mount_point = with_default "mount-point" "VOLUME_MOUNT" "/export";
                            api_listen = with_default "api-listen" "API_LISTEN" "0.0.0.0:9500";
                            svc_ip = svc_ip;
                            ganesha_dir =
                                with_default "ganesha-dir" "GANESHA_CONFIG_DIR" "/var/run/ganesha";
                            device_timeout = device_timeout;
                            skip_mount = skip_mount;
                            lease_lifetime = lease_lifetime;
                            grace_period = grace_period;
                            allowed_clients =
                                with_default "allowed-clients" "NFS_ALLOWED_CLIENTS"
                                  "10.0.0.0/8, 172.16.0.0/12, 192.168.0.0/16";
                            export_mode = with_default "export-mode" "EXPORT_MODE" "0777";
                            monitoring_port = monitoring_port;
                          }))

  -- `Cli::parse`: the subcommand by its name, if there is one.
  abbrev parse_command : String → Result String Command
  parse_command name =
      if str_eq name "run"
      then parse_run
      else if str_eq name "print-config"
      then parse_print
      else err (c.unrecognized name)

  unfoldable pub parse_cli : Result String (Option Command)
  parse_cli = elim c.subcommand [
    | none ↦ ok none
    | some name ↦ and_parsed (parse_command name) λ command. ok (some command)
  ]

abbrev pub settings_of : Run → Settings
settings_of r = record {
  device = r.device;
  volume = r.volume;
  mount_point = r.mount_point;
  api_listen = r.api_listen;
  svc_ip = r.svc_ip;
  ganesha_dir = r.ganesha_dir;
  device_timeout = r.device_timeout;
  skip_mount = r.skip_mount;
  lease_lifetime = r.lease_lifetime;
  grace_period = r.grace_period;
  allowed_clients = r.allowed_clients;
  export_mode = r.export_mode;
  monitoring_port = r.monitoring_port;
}

-- `into_settings`: the settings, and where the API listens.
unfoldable pub into_settings : Command → Option (Settings × String)
into_settings (print p) = none
into_settings (start r) = some (settings_of r, r.api_listen)

-- How the process ends: by returning, with what it printed, by `process::exit`, or by a panic; or not
-- yet.
pub data Ending : Type 0 where
  printed : String → Ending
  succeeded still_runs : Ending
  panicked : String → Ending
  failed : String → Ending
  exited : ℕ → Ending

abbrev by_code : ℕ → Ending
by_code code = if code == 0 then succeeded else exited code

abbrev pub of_result : Result String (Option ExitReason) → Ending
of_result (ok none) = still_runs
of_result (ok (some reason)) = by_code (exit_code (ok reason))
of_result (err e) = by_code (exit_code (err e))

module _ {W : Type 0} (m : Machine W) where
  abbrev pub boot : Settings → W → Session (Manager W)
  boot cfg w = record {
    world = record { outside = w; state = new_state cfg.volume; child = false };
    calls = [];
  }

  -- The API's task exits the process where its server fails before the run ends.
  abbrev pub beside : Option (Result String (Unit {0})) → Ending → Ending
  beside none r = r
  beside (some (ok _)) r = r
  beside (some (err e)) r = exited 1

  module _ (net : Network) where
    abbrev as_root : Bool → List Event → Option (Settings × String) → W → Ending
    as_root root events none w = panicked "only Run remains"
    as_root false events (some (cfg, listen)) w = exited 1
    as_root true events (some (cfg, listen)) w =
        beside (serve_api net listen) (of_result (run m cfg events (boot cfg w)).0)

    -- `main` with its subcommand.
    unfoldable pub main : Option Command → Bool → List Event → W → Ending
    unfolding into_settings
    main none root events w = failed "no subcommand given — use `run` (see --help)"
    main (some (print p)) root events w = printed (print_config p.volume p.mount_point p.export_id)
    main (some (start r)) root events w = as_root root events (into_settings (start r)) w
