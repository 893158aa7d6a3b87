-- ===== src/Tests/Endings.antt =====
-- The share-manager on the fake system, with a ganesha that lives for two polls.
use hcloud_csi_rwx.Share.CommandLine.{Run, start, main, exited, parse_cli}
use hcloud_csi_rwx.Share.CommandLine.Exits.{Tells, main-Tells, main-died}
use hcloud_csi_rwx.Share.CommandLine.Container.{container_clap, parse_cli-share_pod_json}
use hcloud_csi_rwx.Provision.Specs.{share_pod_json}
use hcloud_csi_rwx.Provision.Config.{
  Env, env_or, nfs_allowed_clients, lease_lifetime, grace_period, export_mode, monitoring_port,
}
use hcloud_csi_rwx.Kube.{Result}
use hcloud_csi_rwx.Share.Server.{Network, serve_api}
use hcloud_csi_rwx.Share.Block.{wait_for_device}
use hcloud_csi_rwx.Share.Block.Waiting.{wait_for_device-found}
use hcloud_csi_rwx.Share.Machine.{Machine}
use hcloud_csi_rwx.Exec.{outcome_ok}
use hcloud_csi_rwx.Prelude.{
  leb, ◌+◌, ◌≡◌, refl, ◌<◌, ◌++◌, true, false, none, some, [], ◌∷◌, replicate, arith, if◌then◌else◌,
  ℕ, String, str_eq,
}
use hcloud_csi_rwx.Kube.{ok}
use hcloud_csi_rwx.Kube.Session.{Session, ◌>>=◌}
use hcloud_csi_rwx.Exec.Fake.{World, Invocation, fake_machine, fake_run, usize_max, first_answer}
use hcloud_csi_rwx.Share.Api.{new_state}
use hcloud_csi_rwx.Share.Machine.{Manager}
use hcloud_csi_rwx.Share.Manager.{run, prepare_volume, tick, shutdown}
use hcloud_csi_rwx.Share.Block.{set_export_mode}
use hcloud_csi_rwx.Tests.Exports.{machine, settings, accepted}

abbrev pub world : World (Unit {0})
world = record {
  fake = record { calls = []; rules = []; spawn_fails = false; alive_polls = 2 };
  child = none;
  files = tt;
}

abbrev pub before : Session (Manager (World (Unit {0})))
before = record {
  world = record { outside = world; state = new_state "pvc-1"; child = false };
  calls = [];
}

abbrev prepared : Session (Manager (World (Unit {0})))
prepared = (prepare_volume (fake_machine machine) settings before).1

small : 2 < usize_max
unfolding usize_max
small = omega arith

prepares : prepare_volume (fake_machine machine) settings before ≡ (ok "/export", prepared)
unfolding prepare_volume fake_machine fake_run first_answer set_export_mode ◌>>=◌
prepares = refl

spawns : prepared.world.outside.fake.spawn_fails ≡ false
unfolding prepare_volume fake_machine fake_run first_answer set_export_mode ◌>>=◌
spawns = refl

polls : prepared.world.outside.fake.alive_polls ≡ 2
unfolding prepare_volume fake_machine fake_run first_answer set_export_mode ◌>>=◌
polls = refl

abbrev alive : Manager (World (Unit {0}))
alive = record {
  outside = record world { child = some (record { remaining = 2; killed = false }) };
  state = new_state "pvc-1";
  child = true;
}

abbrev device_args : Invocation
device_args = record { program = "blkid"; args = "/dev/sdb" ∷ [] }

abbrev arguments : Run
arguments = record {
  device = "/dev/sdb";
  volume = "pvc-1";
  mount_point = "/export";
  api_listen = "0.0.0.0:9500";
  svc_ip = "10.0.0.7";
  ganesha_dir = "/var/run/ganesha";
  device_timeout = 1;
  skip_mount = true;
  lease_lifetime = 60;
  grace_period = 90;
  allowed_clients = "10.0.0.0/8";
  export_mode = "0777";
  monitoring_port = 9587;
}

-- An address that can be bound, and a server that goes on.
abbrev network : Network
network = record { bind = λ listen. ok 3; serve = λ listener. none }

main-Tells_example :
    Tells
      (main (fake_machine machine) network (some (start arguments)) true (shutdown ∷ []) world)
      true
      (serve_api network "0.0.0.0:9500")
      (run (fake_machine machine) settings (shutdown ∷ []) before).0
main-Tells_example = main-Tells (fake_machine machine) network arguments true (shutdown ∷ []) world

main-died_example :
    main
      (fake_machine machine)
      network
      (some (start arguments))
      true
      (replicate 3 tick ++ shutdown ∷ [])
      world
    ≡ exited 1
main-died_example =
    main-died machine network arguments (λ path text w. refl) 2 (shutdown ∷ []) "/export" world
      prepared accepted prepares spawns polls small

abbrev bare : Env
bare name = none

abbrev numbers : ℕ → String → Result String ℕ
numbers bits t = if str_eq t "60" then ok 60 else if str_eq t "90" then ok 90 else ok 9587

lease : numbers 32 (lease_lifetime bare) ≡ ok 60
unfolding lease_lifetime env_or
lease = refl

grace : numbers 32 (grace_period bare) ≡ ok 90
unfolding grace_period env_or
grace = refl

monitoring : numbers 16 (monitoring_port bare) ≡ ok 9587
unfolding monitoring_port env_or
monitoring = refl

parse_cli-share_pod_json_example :
    parse_cli (container_clap (share_pod_json bare "pvc-1" "b" "data" "default") "10.0.0.7" numbers)
    ≡ ok (
        some (
          start (record arguments {
            device = "/export";
            device_timeout = 120;
            allowed_clients = nfs_allowed_clients bare;
            export_mode = export_mode bare;
          })))
parse_cli-share_pod_json_example =
    parse_cli-share_pod_json bare numbers "pvc-1" "b" "data" "default" "10.0.0.7" 60 90 9587 refl
      lease grace monitoring

-- A system on which the device is there from its second poll on; its world counts the sleeps.
abbrev appearing : Machine ℕ
appearing = record {
  run = λ program args w. (ok outcome_ok, w);
  try_exists = λ path w. (ok (leb 1 w), w);
  canonicalize = λ path w. (ok "/dev/sdb", w);
  create_dir_all = λ path w. (ok tt, w);
  write_file = λ path text w. (ok tt, w);
  remove_file = λ path w. (ok tt, w);
  spawn = λ program args w. (ok tt, w);
  child_running = λ w. (true, w);
  start_kill = λ w. w;
  wait_child = λ secs w. (true, w);
  sleep = λ w. w + 1;
  code_text = λ code. "Some(0)";
}

abbrev asleep : Session (Manager ℕ)
asleep = record {
  world = record { outside = 0; state = new_state "pvc-1"; child = false };
  calls = [];
}

wait_for_device-found_example :
    (wait_for_device appearing "/dev/disk/by-id/hcloud-1" 240 asleep).0 ≡ ok "/dev/sdb"
wait_for_device-found_example =
    wait_for_device-found appearing "/dev/disk/by-id/hcloud-1" 1 240 asleep (omega arith) (refl, tt)
      refl
