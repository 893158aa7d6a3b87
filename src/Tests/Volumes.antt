-- ===== src/Tests/Volumes.antt =====
-- Names, capacities and mounts on concrete values.
use hcloud_csi_rwx.Provision.Number.{parse_i64}
use hcloud_csi_rwx.Prelude.{
  if◌then◌else◌, Option, ap, unwrap_or, ◌≢◌, Bool, ◌≤◌, ◌<◌, ◌*◌, ◌+◌, ℕ, String, ◌≡◌, refl, none,
  some, List, [], ◌∷◌, onto, arith, true, false, str_eq,
}
use hcloud_csi_rwx.Prelude.Int.{pos, negsuc, i64_min_abs}
use hcloud_csi_rwx.Kube.{Pod, PersistentVolumeClaim, ok, err, Service}
use hcloud_csi_rwx.Kube.Session.{Session, delete, run, pods, claims, services}
use hcloud_csi_rwx.Json.{object, str}
use hcloud_csi_rwx.Provision.Config.{Env, share_namespace, monitoring_port, env_or}
use hcloud_csi_rwx.Provision.Names.{volume_name, backing_pvc_name, share_pod_name}
use hcloud_csi_rwx.Csi.Capacity.{
  requested_gib, gib_bytes, gib, requested_gib_rounds_up, requested_gib_wraps,
}
use hcloud_csi_rwx.Provision.Specs.{metrics_port, share_pod_json, service_json, backing_pvc_json}
use hcloud_csi_rwx.Provision.Specs.Fit.{Fit, specs-Fit}
use hcloud_csi_rwx.Provision.Specs.Schema.{
  conforms, claim_schema, service_schema, pod_schema, specs-conform, port_fits,
}
use hcloud_csi_rwx.Csi.Types.{CreateVolumeRequest, deadline_exceeded, Codec, Host, finished}
use hcloud_csi_rwx.Csi.Volumes.{create_volume, provision_objects}
use hcloud_csi_rwx.Csi.Volumes.Waiting.{polls, RestsFor, create_volume-none}
use hcloud_csi_rwx.Map.{lookup}
use hcloud_csi_rwx.Kube.Session.{◌>>=◌, get_object}
use hcloud_csi_rwx.Csi.Mounts.{node_unpublish_volume}
use hcloud_csi_rwx.Csi.Mounts.Publish.{first_try, node_unpublish-exact}
use hcloud_csi_rwx.Tests.Cluster.{Cluster, cluster, empty_cluster}

requested_gib_rounds_up_example :
    (g : ℕ) × (requested_gib (some (pos 1073741825)) ≡ pos g)
    × (1073741825 ≤ g * gib)
    × (g * gib < 1073741825 + gib)
    × (gib_bytes (requested_gib (some (pos 1073741825))) ≡ pos (g * gib))
    × (g * gib < i64_min_abs)
requested_gib_rounds_up_example = requested_gib_rounds_up 1073741825 (omega arith) (omega arith)

requested_gib_wraps_example : (g : ℕ) × (requested_gib (some (pos 9223372036854775807)) ≡ negsuc g)
requested_gib_wraps_example = requested_gib_wraps 9223372036854775807 (omega arith) (omega arith)

abbrev pub env : Env
env = λ name. none

abbrev pub codec : Codec
codec = record {
  claim_from_value = λ v. err "not a claim";
  service_from_value = λ v. err "not a service";
  pod_from_value = λ v. err "not a pod";
  kube_to_string = λ e. "ApiError";
  any_to_string = λ e. "error";
}

abbrev nothing_yet : Session Cluster
nothing_yet = record { world = empty_cluster; calls = [] }

-- A node whose share-manager answers with an endpoint, and where `umount` fails as long as it is not lazy.
abbrev pub umounted : List String → Bool
umounted [] = false
umounted (arg ∷ args) = str_eq arg "-l"

abbrev pub host : Host Cluster
host = record {
  http_get = λ url w. (ok (object (("endpoint", str "10.0.0.7:/pvc-1") ∷ [])), w);
  create_dir_all = λ path w. (ok tt, w);
  run = λ program args timeout w. (finished (umounted args) "target is busy", w);
}

abbrev pub share : Service
share = record { name = some "pvc-1"; spec = some (record { cluster_ip = some "10.0.0.7" }) }

abbrev pub session : Session Cluster
session = record { world = record empty_cluster { services = ("pvc-1", share) ∷ [] }; calls = [] }

node_unpublish-exact_example :
    ((node_unpublish_volume cluster host env codec "/mnt/data" session).0 ≡ ok tt)
    × ((node_unpublish_volume cluster host env codec "/mnt/data" session).1.calls
        ≡ elim (first_try cluster host env codec "/mnt/data" session).0 [
          | ok _ ↦ run "umount" ("/mnt/data" ∷ []) 20 ∷ []
          | err _ ↦
              run "umount" ("-l" ∷ "/mnt/data" ∷ []) 10 ∷ run "umount" ("/mnt/data" ∷ []) 20 ∷ []
        ])
node_unpublish-exact_example = node_unpublish-exact cluster host env codec "/mnt/data" session

specs-Fit_example :
    Fit
      (share_pod_json env "pvc-1" "a" "data" "default")
      (service_json env "pvc-1")
      (backing_pvc_json env "pvc-1" "10Gi" "hcloud-volumes")
specs-Fit_example = specs-Fit env "pvc-1" "a" "data" "default" "10Gi" "hcloud-volumes"

abbrev pub request : CreateVolumeRequest
request = record { name = "pvc-1"; required_bytes = some (pos 1073741824); parameters = [] }

abbrev pub sick : Pod
sick = record {
  name = some "share-manager-pvc-1";
  labels = none;
  spec = none;
  status = some (record { phase = some "Unknown"; pod_ip = none });
}

abbrev pub backing : PersistentVolumeClaim
backing = record {
  name = some "pvc-1-backing";
  namespace = none;
  deletion_timestamp = none;
  spec = none;
}

abbrev pub stuck : Session Cluster
stuck = record {
  world = record empty_cluster {
    pods = ("share-manager-pvc-1", sick) ∷ [];
    claims = ("pvc-1-backing", backing) ∷ [];
    services = ("pvc-1", share) ∷ [];
  };
  calls = [];
}

abbrev after_objects : Session Cluster
after_objects = (provision_objects cluster env codec 2 1 request stuck).1

objects_there : provision_objects cluster env codec 2 1 request stuck ≡ (ok tt, after_objects)
unfolding provision_objects ◌>>=◌ get_object lookup volume_name share_pod_name backing_pvc_name
objects_there = refl

not_running : ◌≢◌ {A = Option String} (some "Unknown") (some "Running")
not_running e = cc (ap (λ o. str_eq (unwrap_or o "") "Running") e)

never_runs :
    RestsFor cluster env codec 2 1 (share_pod_name (volume_name "pvc-1")) 2 after_objects.world
unfolding provision_objects ◌>>=◌ get_object lookup volume_name share_pod_name backing_pvc_name
never_runs = (not_running, (not_running, tt))

create_volume-none_example :
    ((create_volume cluster env codec 2 1 request stuck).0
      ≡ err (deadline_exceeded "share-manager pod did not become ready"))
    × ((create_volume cluster env codec 2 1 request stuck).1.calls
        ≡ onto
            (delete (pods (share_namespace env)) (share_pod_name (volume_name "pvc-1"))
              ∷ delete (claims (share_namespace env)) (backing_pvc_name (volume_name "pvc-1"))
              ∷ delete (services (share_namespace env)) (volume_name "pvc-1")
              ∷ [])
            (polls
              (share_namespace env)
              (share_pod_name (volume_name "pvc-1"))
              1
              2
              after_objects.calls))
create_volume-none_example =
    create_volume-none cluster env codec 2 1 request stuck after_objects objects_there never_runs

-- A metrics port that is not a port.
abbrev far_port : Env
far_port name = if str_eq name "MONITORING_PORT" then some "3000000000" else none

specs-conform_example :
    (conforms claim_schema (backing_pvc_json far_port "pvc-1" "10Gi" "hcloud-volumes") ≡ true)
    × (conforms service_schema (service_json far_port "pvc-1") ≡ true)
    × (conforms pod_schema (share_pod_json far_port "pvc-1" "a" "data" "default")
        ≡ port_fits (metrics_port far_port))
specs-conform_example = specs-conform far_port "pvc-1" "10Gi" "hcloud-volumes" "a" "data" "default"

far_port_refused : port_fits (metrics_port far_port) ≡ false
unfolding metrics_port monitoring_port env_or parse_i64
far_port_refused = refl
