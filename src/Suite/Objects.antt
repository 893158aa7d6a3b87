-- ===== src/Suite/Objects.antt =====
-- The tests of names, configuration and specs of src/provision.rs.
use hcloud_csi_rwx.Prelude.{
  ℕ, String, ◌≡◌, refl, Bool, true, false, not, ◌&&◌, Option, some, List, [], ◌∷◌, ◌==◌, str_eq,
  any, and_then, unwrap_or,
}
use hcloud_csi_rwx.Prelude.Int.{pos}
use hcloud_csi_rwx.Json.{Value, num, bool, value_at, item_at}
use hcloud_csi_rwx.Exec.Fake.{contains_text, starts_with}
use hcloud_csi_rwx.Provision.Number.{parse_i64}
use hcloud_csi_rwx.Provision.Config.{
  env_or, driver_name, share_namespace, image, pull_policy, backing_storage_class,
  nfs_allowed_clients, lease_lifetime, grace_period, export_mode, monitoring_port,
}
use hcloud_csi_rwx.Provision.Names.{volume_name, backing_pvc_name, share_pod_name, state_cm_name}
use hcloud_csi_rwx.Provision.Specs.{
  backing_pvc_json, service_json, pod_env, metrics_port, pod_ports, pod_annotations, share_pod_json,
}
use hcloud_csi_rwx.Suite.Disk.{is_text, every}
use hcloud_csi_rwx.Suite.Server.{env, text_at, list_at}

unfoldable volume_name_sanitizes : Bool
volume_name_sanitizes =
    str_eq (volume_name "pvc-1234") "pvc-1234" && str_eq (volume_name "my.vol_1") "my-vol-1"

-- The first container of a pod's spec, and the values of a list in it.
abbrev container : Value → Option Value
container pod = and_then (value_at ("spec" ∷ "containers" ∷ []) pod) (item_at 0)

abbrev in_container : String → Value → List Value
in_container key pod = unwrap_or (and_then (container pod) (list_at (key ∷ []))) []

abbrev has_text : List String → String → Value → Bool
has_text path t v = is_text t (text_at path v)

abbrev is_num : ℕ → Option Value → Bool
is_num n (some (num (pos m))) = m == n
is_num _ _ = false

abbrev is_bool : Option Value → Bool
is_bool (some (bool b)) = b
is_bool _ = false

abbrev share_pod : Value
share_pod = share_pod_json env "pvc-abc" "node-1" "my-claim" "default"

abbrev of_pod_ip : Value → Bool
of_pod_ip e =
    has_text ("name" ∷ []) "NFS_SVC_IP" e
    && has_text ("valueFrom" ∷ "fieldRef" ∷ "fieldPath" ∷ []) "status.podIP" e

abbrev claim_of_pod : Value → Option String
claim_of_pod pod =
    and_then (and_then (value_at ("spec" ∷ "volumes" ∷ []) pod) (item_at 0))
      (text_at ("persistentVolumeClaim" ∷ "claimName" ∷ []))

unfoldable share_pod_has_consistent_labels_and_claim : Bool
share_pod_has_consistent_labels_and_claim = every (
    has_text ("metadata" ∷ "labels" ∷ "app" ∷ []) driver_name share_pod
    ∷ has_text ("metadata" ∷ "labels" ∷ "rwx-volume" ∷ []) "pvc-abc" share_pod
    ∷ has_text ("metadata" ∷ "labels" ∷ "rwx-pvc-name" ∷ []) "my-claim" share_pod
    ∷ is_text "pvc-abc-backing" (claim_of_pod share_pod)
    ∷ has_text ("spec" ∷ "nodeSelector" ∷ "kubernetes.io/hostname" ∷ []) "node-1" share_pod
    ∷ any of_pod_ip (in_container "env" share_pod)
    ∷ not (any (has_text [] "--svc-ip") (in_container "args" share_pod))
    ∷ [])

abbrev is_metrics : Value → Bool
is_metrics p = has_text ("name" ∷ []) "metrics" p && is_num 9587 (value_at ("containerPort" ∷ []) p)

abbrev is_monitoring : Value → Bool
is_monitoring e = has_text ("name" ∷ []) "MONITORING_PORT" e && has_text ("value" ∷ []) "9587" e

unfoldable share_pod_exposes_metrics_by_default : Bool
share_pod_exposes_metrics_by_default = every (
    any is_metrics (in_container "ports" share_pod)
    ∷ has_text ("metadata" ∷ "annotations" ∷ "prometheus.io/scrape" ∷ []) "true" share_pod
    ∷ has_text ("metadata" ∷ "annotations" ∷ "prometheus.io/port" ∷ []) "9587" share_pod
    ∷ any is_monitoring (in_container "env" share_pod)
    ∷ has_text ("spec" ∷ "selector" ∷ "app" ∷ []) driver_name (service_json env "pvc-abc")
    ∷ has_text ("spec" ∷ "selector" ∷ "rwx-volume" ∷ []) "pvc-abc" (service_json env "pvc-abc")
    ∷ [])

unfoldable image_default_matches_crate_version : Bool
image_default_matches_crate_version = starts_with "ghcr.io/mrhein/hcloud-csi-rwx:v" (image env)

unfoldable pure_helpers_and_env_overrides : Bool
pure_helpers_and_env_overrides =
    let j = backing_pvc_json env "pvc-1" "5Gi" "hcloud-volumes" in
    every (
      str_eq (backing_pvc_name "v") "v-backing"
      ∷ str_eq (share_pod_name "v") "share-manager-v"
      ∷ str_eq (state_cm_name "v") "state-v"
      ∷ has_text ("spec" ∷ "storageClassName" ∷ []) "hcloud-volumes" j
      ∷ has_text ("spec" ∷ "resources" ∷ "requests" ∷ "storage" ∷ []) "5Gi" j
      ∷ is_text "ReadWriteOnce"
          (and_then (and_then (value_at ("spec" ∷ "accessModes" ∷ []) j) (item_at 0)) (text_at []))
      ∷ has_text ("metadata" ∷ "labels" ∷ "rwx-volume" ∷ []) "pvc-1" j
      ∷ str_eq (share_namespace env) "hcloud-csi-rwx"
      ∷ str_eq (pull_policy env) "IfNotPresent"
      ∷ str_eq (backing_storage_class env) "hcloud-volumes"
      ∷ str_eq (lease_lifetime env) "60"
      ∷ str_eq (grace_period env) "90"
      ∷ str_eq (export_mode env) "0777"
      ∷ str_eq (monitoring_port env) "9587"
      ∷ contains_text "10.0.0.0/8" (nfs_allowed_clients env)
      ∷ starts_with "ghcr.io/mrhein/hcloud-csi-rwx:v" (image env)
      ∷ [])

abbrev claimed : Value
claimed = share_pod_json env "pvc-x" "n1" "claim" "ns1"

abbrev port_at : ℕ → Option Value
port_at i =
    and_then (and_then (value_at ("spec" ∷ "ports" ∷ []) (service_json env "pvc-x")) (item_at i))
      (value_at ("port" ∷ []))

abbrev optional_token : Value → Bool
optional_token e =
    has_text ("name" ∷ []) "RECOVERY_BACKEND_TOKEN" e
    && is_bool (value_at ("valueFrom" ∷ "secretKeyRef" ∷ "optional" ∷ []) e)

unfoldable service_and_pod_specs_are_consistent : Bool
service_and_pod_specs_are_consistent = every (
    is_num 2049 (port_at 0)
    ∷ is_num 9500 (port_at 1)
    ∷ is_bool (value_at ("spec" ∷ "hostNetwork" ∷ []) claimed)
    ∷ has_text ("spec" ∷ "restartPolicy" ∷ []) "Never" claimed
    ∷ is_bool (and_then (container claimed) (value_at ("securityContext" ∷ "privileged" ∷ [])))
    ∷ has_text ("metadata" ∷ "labels" ∷ "rwx-pvc-namespace" ∷ []) "ns1" claimed
    ∷ any optional_token (in_container "env" claimed)
    ∷ [])

-- The tests of names and specs pass.
specs_pass :
    every (
      volume_name_sanitizes ∷ share_pod_has_consistent_labels_and_claim
      ∷ share_pod_exposes_metrics_by_default ∷ image_default_matches_crate_version
      ∷ pure_helpers_and_env_overrides ∷ service_and_pod_specs_are_consistent ∷ [])
    ≡ true
unfolding volume_name_sanitizes share_pod_has_consistent_labels_and_claim
    share_pod_exposes_metrics_by_default image_default_matches_crate_version
    pure_helpers_and_env_overrides service_and_pod_specs_are_consistent volume_name backing_pvc_name
    share_pod_name state_cm_name share_namespace image pull_policy backing_storage_class
    nfs_allowed_clients lease_lifetime grace_period export_mode monitoring_port env_or
    backing_pvc_json service_json pod_env metrics_port pod_ports pod_annotations share_pod_json
    parse_i64 contains_text
specs_pass = refl
