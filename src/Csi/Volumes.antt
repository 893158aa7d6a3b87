-- ===== src/Csi/Volumes.antt =====
-- `create_volume` and `delete_volume` of src/csi.rs.
pub mod Deletion
pub mod Waiting
pub mod Existing
pub mod Started
use hcloud_csi_rwx.Prelude.{
  ℕ, zero, suc, String, Bool, false, Option, none, some, [], ◌∷◌, and_then, unwrap_or, str_eq,
  format, if◌then◌else◌,
}
use hcloud_csi_rwx.Prelude.Decimal.{show_ℤ}
use hcloud_csi_rwx.Map.{lookup}
use hcloud_csi_rwx.Kube.{KubeError, Result, ok, err, Pod, PersistentVolumeClaim, Service, Client}
use hcloud_csi_rwx.Kube.Session.{
  Try, pure, fail, lift, attempt, map_err, recode, wait, ◌>>=◌, ◌>>◌, Handle, pods_in, claims_in,
  services_in, config_maps_in, get_object, create_object, delete_object,
}
use hcloud_csi_rwx.Provision.Config.{Env, share_namespace, backing_storage_class}
use hcloud_csi_rwx.Provision.Names.{volume_name, backing_pvc_name, share_pod_name, state_cm_name}
use hcloud_csi_rwx.Provision.Specs.{backing_pvc_json, service_json, share_pod_json}
use hcloud_csi_rwx.Provision.Nodes.{pick_node}
use hcloud_csi_rwx.Csi.Capacity.{requested_gib, gib_bytes}
use hcloud_csi_rwx.Csi.Types.{
  Status, internal, deadline_exceeded, CreateVolumeRequest, CreateVolumeResponse, Codec,
}

abbrev pub phase_of : Pod → Option String
phase_of pod = and_then pod.status (λ s. s.phase)

abbrev has_phase : Option String → String → Bool
has_phase none phase = false
has_phase (some p) phase = str_eq p phase

abbrev pub is_running : Pod → Bool
is_running pod = has_phase (phase_of pod) "Running"

abbrev pub pod_ip : Pod → String
pod_ip pod = unwrap_or (and_then pod.status (λ s. s.pod_ip)) ""

abbrev pub response : CreateVolumeRequest → String → CreateVolumeResponse
response req ip = record {
  volume_id = req.name;
  capacity_bytes = gib_bytes (requested_gib req.required_bytes);
  volume_context = ("nfsEndpoint", format (ip ∷ ":/" ∷ req.name ∷ [])) ∷ [];
}

-- `attempts` and the seconds of a delay.
module _ {W : Type 0} (k : Client W) (env : Env) (c : Codec) (attempts delay : ℕ) where
  abbrev st : KubeError → Status
  st e = internal (c.kube_to_string e)

  abbrev pub sm_pods : Handle W Pod
  sm_pods = pods_in k (share_namespace env)

  -- `if api.get(name).is_err() { create }`
  unfoldable pub create_claim :
      CreateVolumeRequest → Result KubeError PersistentVolumeClaim → Try W Status (Unit {0})
  create_claim req (ok _) = pure tt
  create_claim req (err _) = do
    let size = format (show_ℤ (requested_gib req.required_bytes) ∷ "Gi" ∷ [])
    let backing_sc =
        unwrap_or (lookup "backingStorageClass" req.parameters) (backing_storage_class env)
    backing ←
        lift (recode internal (c.claim_from_value (backing_pvc_json env req.name size backing_sc)))
    map_err st (create_object (claims_in k (share_namespace env)) backing)
    pure tt

  unfoldable pub create_service :
      CreateVolumeRequest → Result KubeError Service → Try W Status (Unit {0})
  create_service req (ok _) = pure tt
  create_service req (err _) = do
    svc ← lift (recode internal (c.service_from_value (service_json env req.name)))
    map_err st (create_object (services_in k (share_namespace env)) svc)
    pure tt

  -- The wait for the deletion of a stuck pod ends with the pod or with the attempts.
  unfoldable pub wait_gone : String → ℕ → Try W Status (Unit {0})
  wait_gone name zero = pure tt
  wait_gone name (suc n) = do
    r ← attempt (get_object sm_pods name)
    elim r [ ok _ ↦ (do wait k delay; wait_gone name n) | err _ ↦ pure tt ]

  unfoldable pub clear_stuck : String → Result KubeError Pod → Try W Status (Unit {0})
  unfolding wait_gone
  clear_stuck name (err _) = pure tt
  clear_stuck name (ok pod) =
      if str_eq (unwrap_or (phase_of pod) "") "Pending"
      then (do attempt {F = Status} (delete_object sm_pods name); wait_gone name attempts)
      else pure tt

  unfoldable pub create_pod : CreateVolumeRequest → Result KubeError Pod → Try W Status (Unit {0})
  create_pod req (ok _) = pure tt
  create_pod req (err _) = do
    node ← map_err (λ e. internal (c.any_to_string e)) (pick_node k env [])
    let pvc_name = unwrap_or (lookup "csi.storage.k8s.io/pvc/name" req.parameters) ""
    let pvc_namespace = unwrap_or (lookup "csi.storage.k8s.io/pvc/namespace" req.parameters) ""
    pod ← lift (
        recode internal
          (c.pod_from_value (share_pod_json env req.name node pvc_name pvc_namespace)))
    map_err st (create_object sm_pods pod)
    pure tt

  -- The address of the pod once it runs, within the attempts.
  unfoldable pub wait_running : String → ℕ → Try W Status (Option String)
  wait_running name zero = pure none
  wait_running name (suc n) = do
    r ← attempt (get_object sm_pods name)
    elim r [
      | ok pod ↦
          if is_running pod
          then pure (some (pod_ip pod))
          else (do wait k delay; wait_running name n)
      | err _ ↦ (do wait k delay; wait_running name n)
    ]

  -- The volume, or the removal of what was created.
  unfoldable pub conclude : CreateVolumeRequest → Option String → Try W Status CreateVolumeResponse
  conclude req (some ip) = pure (response req ip)
  conclude req none = do
    let vn = volume_name req.name
    attempt {F = Status} (delete_object sm_pods (share_pod_name vn))
    attempt {F = Status} (delete_object (claims_in k (share_namespace env)) (backing_pvc_name vn))
    attempt {F = Status} (delete_object (services_in k (share_namespace env)) vn)
    fail (deadline_exceeded "share-manager pod did not become ready")

  -- The backing claim, the service and the pod, each where it is not there yet.
  unfoldable pub provision_objects : CreateVolumeRequest → Try W Status (Unit {0})
  unfolding create_claim create_service create_pod clear_stuck
  provision_objects req = do
    let vn = volume_name req.name
    claim ← attempt (get_object (claims_in k (share_namespace env)) (backing_pvc_name vn))
    create_claim req claim
    service ← attempt (get_object (services_in k (share_namespace env)) vn)
    create_service req service
    existing ← attempt (get_object sm_pods (share_pod_name vn))
    clear_stuck (share_pod_name vn) existing
    left ← attempt (get_object sm_pods (share_pod_name vn))
    create_pod req left

  unfoldable pub create_volume : CreateVolumeRequest → Try W Status CreateVolumeResponse
  create_volume req = do
    provision_objects req
    ip ← wait_running (share_pod_name (volume_name req.name)) attempts
    conclude req ip

  unfoldable pub delete_volume : String → Try W Status (Unit {0})
  delete_volume name = do
    let vn = volume_name name
    attempt {F = Status} (delete_object sm_pods (share_pod_name vn))
    attempt {F = Status} (delete_object (claims_in k (share_namespace env)) (backing_pvc_name vn))
    attempt {F = Status} (delete_object (services_in k (share_namespace env)) vn)
    attempt {F = Status} (delete_object (config_maps_in k (share_namespace env)) (state_cm_name vn))
    pure tt
