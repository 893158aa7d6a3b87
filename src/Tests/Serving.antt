-- ===== src/Tests/Serving.antt =====
-- A share-manager on the fake system and the node that asks its API, and an endpoint with an IPv6
-- address.
use Prim.Native.String as S
use hcloud_csi_rwx.Prelude.{
  ℕ, String, ◌≡◌, refl, Bool, false, Option, none, some, List, [], ◌∷◌, not, format, arith,
  if◌then◌else◌, is_empty, Option-cases, inl, inr,
}
use hcloud_csi_rwx.Map.{lookup}
use hcloud_csi_rwx.Json.{object, str}
use hcloud_csi_rwx.Kube.{ok, err}
use hcloud_csi_rwx.Kube.Session.{Session, create_dir, ◌>>=◌, get_object}
use hcloud_csi_rwx.Provision.Config.{share_namespace}
use hcloud_csi_rwx.Provision.Names.{volume_name}
use hcloud_csi_rwx.Csi.Types.{Host, unavailable, invalid_argument}
use hcloud_csi_rwx.Csi.Endpoint.{HasNoColon}
use hcloud_csi_rwx.Csi.Mounts.{node_publish_volume, run_command, resolve_current_endpoint}
use hcloud_csi_rwx.Csi.Mounts.Publish.{node_publish-colons}
use hcloud_csi_rwx.Csi.Mounts.Served.{received, asked, node_publish-served}
use hcloud_csi_rwx.Exec.Fake.{World, FakeChild, fake_machine, fake_run, fake_spawn}
use hcloud_csi_rwx.Share.Api.{endpoint}
use hcloud_csi_rwx.Share.Machine.{ExecError}
use hcloud_csi_rwx.Share.Manager.{tick, shutdown, run, pseudo_path}
use hcloud_csi_rwx.Share.Children.{Reaps}
use hcloud_csi_rwx.Share.Children.Reaped.{Reaped, run-Reaped}
use hcloud_csi_rwx.Share.Shown.{serves, Shows, run-Shows}
use hcloud_csi_rwx.Tests.Cluster.{Cluster, cluster}
use hcloud_csi_rwx.Tests.Exports.{machine, settings}
use hcloud_csi_rwx.Tests.Endings.{before}
use hcloud_csi_rwx.Tests.Volumes.{env, codec, host, share, session}

-- A child of the fake that was not told to end.
abbrev fake_live_child : Option FakeChild → Bool
fake_live_child none = false
fake_live_child (some c) = not c.killed

abbrev fake_live : World (Unit {0}) → Bool
fake_live w = fake_live_child w.child

fake-killed : (w : World (Unit {0})) → fake_live ((fake_machine machine).start_kill w) ≡ false
unfolding fake_machine
fake-killed w = elim (Option-cases w.child) [ inl e ↦ rw e refl | inr (c, e) ↦ rw e refl ]

fake-spawn_failed :
    (p : String) (args : List String) (w : World (Unit {0})) (e : ExecError)
    → ((fake_machine machine).spawn p args w).0 ≡ err e
    → fake_live w ≡ false
    → fake_live ((fake_machine machine).spawn p args w).1 ≡ false
unfolding fake_machine fake_spawn
fake-spawn_failed p args w e h n = ground (arith, h, n)

fake-Reaps : Reaps (fake_machine machine) fake_live
unfolding fake_machine fake_run
fake-Reaps = record {
  run = λ p args w n. n;
  try_exists = λ p w n. n;
  canonicalize = λ p w n. n;
  create_dir_all = λ p w n. n;
  write_file = λ p t w n. n;
  sleep = λ w n. n;
  spawn_failed = fake-spawn_failed;
  wait_child = λ secs w n. n;
  start_kill = fake-killed;
}

run-Reaped_example :
    Reaped
      (fake_machine machine)
      fake_live
      fake-Reaps
      settings
      (run (fake_machine machine) settings (tick ∷ tick ∷ tick ∷ []) before).0
      (run (fake_machine machine) settings (tick ∷ tick ∷ tick ∷ []) before).1.world
run-Reaped_example =
    run-Reaped (fake_machine machine) fake_live fake-Reaps settings (tick ∷ tick ∷ tick ∷ []) before
      refl

run-Shows_example :
    Shows
      (fake_machine machine)
      settings
      (run (fake_machine machine) settings (tick ∷ shutdown ∷ []) before).0
      (run (fake_machine machine) settings (tick ∷ shutdown ∷ []) before).1.world.state
run-Shows_example = run-Shows (fake_machine machine) settings (tick ∷ shutdown ∷ []) before refl

abbrev text : ℕ → String
text code = "HTTP status server error"

-- A node that reaches the API of that share-manager.
abbrev reaching : Host Cluster
reaching = record host {
  http_get = λ url w. (
    received text (endpoint (run (fake_machine machine) settings (tick ∷ []) before).1.world.state),
    w,
  );
}

server_there : is_empty settings.svc_ip ≡ false
server_there = refl

plain_server : HasNoColon "10.0.0.7"
plain_server = (refl, (refl, (refl, (refl, (refl, (refl, (refl, (refl, tt))))))))

plain_path : HasNoColon (pseudo_path settings)
unfolding pseudo_path
plain_path = (refl, (refl, (refl, (refl, (refl, (refl, tt))))))

found_share :
    (cluster.services (share_namespace env)).get (volume_name "pvc-1") session.world
    ≡ (ok share, session.world)
unfolding volume_name lookup
found_share = refl

node_publish-served_example :
    node_publish_volume cluster reaching env codec "pvc-1" "/mnt/data" session ≡ (
      if serves (run (fake_machine machine) settings (tick ∷ []) before).0
      then run_command cluster reaching env codec "mount"
          ("-t"
            ∷ "nfs4"
            ∷ "-o"
            ∷ "vers=4,hard,timeo=30,retrans=3"
            ∷ format ("10.0.0.7" ∷ ":" ∷ pseudo_path settings ∷ [])
            ∷ "/mnt/data"
            ∷ [])
          30
          (record {
            world = session.world;
            calls =
                create_dir "/mnt/data"
                ∷ (asked cluster reaching env codec "pvc-1" "10.0.0.7" session.world session).calls;
          })
      else (
        err (unavailable (format ("NFS endpoint not resolvable: " ∷ "error" ∷ []))),
        asked cluster reaching env codec "pvc-1" "10.0.0.7" session.world session,
      ))
node_publish-served_example =
    node_publish-served cluster reaching env codec (fake_machine machine) settings (tick ∷ [])
      before text "pvc-1" "/mnt/data" "10.0.0.7" share session session.world session.world refl
      found_share refl refl server_there plain_server plain_path refl

-- A share-manager on an IPv6 address.
abbrev ipv6 : Host Cluster
ipv6 = record host {
  http_get = λ url w. (ok (object (("endpoint", str "fd00::7:/pvc-1") ∷ [])), w);
}

abbrev after_ipv6 : Session Cluster
after_ipv6 = (resolve_current_endpoint cluster ipv6 env codec "pvc-1" session).1

resolved_ipv6 :
    resolve_current_endpoint cluster ipv6 env codec "pvc-1" session
    ≡ (ok (S.◌++◌ "fd00" (S.◌∷◌ ":" (S.◌++◌ "" (S.◌∷◌ ":" "7:/pvc-1")))), after_ipv6)
unfolding resolve_current_endpoint ◌>>=◌ get_object volume_name lookup
resolved_ipv6 = refl

plain_first : HasNoColon "fd00"
plain_first = (refl, (refl, (refl, (refl, tt))))

node_publish-colons_example :
    node_publish_volume cluster ipv6 env codec "pvc-1" "/mnt/data" session ≡ (
      if is_empty ""
      then (
        err (invalid_argument (format ("malformed NFS endpoint " ∷ "fd00::7:/pvc-1" ∷ []))),
        record { world = after_ipv6.world; calls = create_dir "/mnt/data" ∷ after_ipv6.calls },
      )
      else run_command cluster ipv6 env codec "mount"
          ("-t"
            ∷ "nfs4"
            ∷ "-o"
            ∷ "vers=4,hard,timeo=30,retrans=3"
            ∷ format ("fd00" ∷ ":" ∷ "" ∷ [])
            ∷ "/mnt/data"
            ∷ [])
          30
          (record { world = after_ipv6.world; calls = create_dir "/mnt/data" ∷ after_ipv6.calls }))
node_publish-colons_example =
    node_publish-colons cluster ipv6 env codec "pvc-1" "/mnt/data" "fd00" "" "7:/pvc-1" session
      after_ipv6 after_ipv6.world plain_first tt refl resolved_ipv6 refl
