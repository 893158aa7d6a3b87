-- ===== src/Suite/Volumes.antt =====
-- The tests of src/csi.rs on capacities and volumes.
use hcloud_csi_rwx.Prelude.{
  ℕ, ◌+◌, ◌*◌, String, ◌≡◌, refl, Bool, true, false, not, ◌&&◌, ◌==◌, none, some, [], ◌∷◌, map,
}
use hcloud_csi_rwx.Prelude.Int.{ℤ, pos, negsuc}
use hcloud_csi_rwx.Json.{str, object}
use hcloud_csi_rwx.Map.{lookup}
use hcloud_csi_rwx.Kube.{Result, ok, err}
use hcloud_csi_rwx.Kube.Session.{
  Session, wait, ◌>>=◌, get_object, list_objects, create_object, delete_object,
}
use hcloud_csi_rwx.Exec.Fake.{contains_text}
use hcloud_csi_rwx.Provision.Config.{
  env_or, share_namespace, image, pull_policy, nfs_allowed_clients, lease_lifetime, grace_period,
  export_mode, monitoring_port, backing_storage_class,
}
use hcloud_csi_rwx.Provision.Number.{parse_i64}
use hcloud_csi_rwx.Provision.Names.{volume_name, backing_pvc_name, share_pod_name, state_cm_name}
use hcloud_csi_rwx.Provision.Specs.{
  share_pod_json, pod_env, metrics_port, pod_ports, pod_annotations, backing_pvc_json, service_json,
}
use hcloud_csi_rwx.Provision.Nodes.{kube, ready, occupied_by, suitable, choose, pick_node}
use hcloud_csi_rwx.Csi.Capacity.{gib, requested_gib, round_up, gib_bytes}
use hcloud_csi_rwx.Csi.Types.{
  Status, deadline_exceeded, CreateVolumeRequest, CreateVolumeResponse, Codec,
}
use hcloud_csi_rwx.Csi.Volumes.{
  create_claim, create_service, wait_gone, clear_stuck, create_pod, wait_running, conclude,
  provision_objects, create_volume, delete_volume,
}
use hcloud_csi_rwx.Testing.{FakeApi, new_api, ok_route, called, call, first_reply}
use hcloud_csi_rwx.Testing.Fixtures.{node_value, node_list, pod_value, empty_list, service_value}
use hcloud_csi_rwx.Suite.Disk.{is_ok, is_err, ok_where, is_text, every}
use hcloud_csi_rwx.Suite.Server.{
  client, env, on_api, api_after, any_to_string, pod_of, claim_of, service_of,
}
use hcloud_csi_rwx.Suite.States.{err_of, first_body}
use hcloud_csi_rwx.Suite.Attachments.{nothing, with_service}

abbrev is_int : ℕ → ℤ → Bool
is_int n (pos m) = m == n
is_int n (negsuc m) = false

unfoldable requested_size_rounds_up_to_gib : Bool
requested_size_rounds_up_to_gib = every (
    is_int 10 (requested_gib none)
    ∷ is_int 10 (requested_gib (some (pos 0)))
    ∷ is_int 1 (requested_gib (some (pos 1)))
    ∷ is_int 1 (requested_gib (some (pos gib)))
    ∷ is_int 2 (requested_gib (some (pos (gib + 1))))
    ∷ is_int 15 (requested_gib (some (pos (15 * gib))))
    ∷ [])

abbrev pub codec : Codec
codec = record {
  claim_from_value = λ v. ok (claim_of v);
  service_from_value = λ v. ok (service_of v);
  pod_from_value = λ v. ok (pod_of v);
  kube_to_string = λ e. any_to_string (kube e);
  any_to_string = any_to_string;
}

abbrev create_req : String → ℕ → CreateVolumeRequest
create_req name bytes = record {
  name = name;
  required_bytes = some (pos bytes);
  parameters =
      ("csi.storage.k8s.io/pvc/name", "claim")
      ∷ ("csi.storage.k8s.io/pvc/namespace", "default")
      ∷ [];
}

-- A driver that looks twice and does not wait.
abbrev created :
    CreateVolumeRequest → FakeApi → Result Status CreateVolumeResponse × Session FakeApi
created req f = create_volume client env codec 2 0 req (on_api f)

abbrev is_late : {A : Type 0} → Result Status A → Bool
is_late (ok a) = false
is_late (err (deadline_exceeded m)) = true
is_late (err _) = false

abbrev gets_claim : String
gets_claim = "GET /api/v1/namespaces/hcloud-csi-rwx/persistentvolumeclaims/pvc-1-backing"

abbrev gets_service : String
gets_service = "GET /api/v1/namespaces/hcloud-csi-rwx/services/pvc-1"

abbrev gets_pod : String
gets_pod = "GET /api/v1/namespaces/hcloud-csi-rwx/pods/share-manager-pvc-1"

abbrev lists_pods : String
lists_pods = "GET /api/v1/namespaces/hcloud-csi-rwx/pods?"

abbrev posts_claims : String
posts_claims = "POST /api/v1/namespaces/hcloud-csi-rwx/persistentvolumeclaims"

abbrev posts_services : String
posts_services = "POST /api/v1/namespaces/hcloud-csi-rwx/services"

abbrev posts_pods : String
posts_pods = "POST /api/v1/namespaces/hcloud-csi-rwx/pods"

abbrev with_pod : String → FakeApi → FakeApi
with_pod phase = ok_route gets_pod (pod_value "share-manager-pvc-1" "n1" phase)

abbrev nodes_ready : Bool → FakeApi → FakeApi
nodes_ready there f =
    ok_route "GET /api/v1/nodes" (node_list (("n1", there) ∷ []))
      (ok_route lists_pods (empty_list "PodList") f)

abbrev nothing_there : FakeApi
nothing_there =
    ok_route posts_services nothing
      (err_of gets_service 404 (ok_route posts_claims nothing (err_of gets_claim 404 new_api)))

abbrev answers_with : ℕ → CreateVolumeResponse → Bool
answers_with bytes v = every (
    is_text "pvc-1" (some v.volume_id)
    ∷ is_int bytes v.capacity_bytes
    ∷ is_text "10.255.0.1:/pvc-1" (lookup "nfsEndpoint" v.volume_context)
    ∷ [])

-- Without the size in the body of the claim, which the model's claim has no field for.
unfoldable create_volume_provisions_and_returns_the_endpoint : Bool
create_volume_provisions_and_returns_the_endpoint =
    let f = nodes_ready true (with_pod "Running" nothing_there) in
    ok_where (answers_with (5 * gib)) (created (create_req "pvc-1" (5 * gib)) f).0

unfoldable create_volume_reuses_existing_resources : Bool
create_volume_reuses_existing_resources =
    let claim = object (
      ("apiVersion", str "v1")
      ∷ ("kind", str "PersistentVolumeClaim")
      ∷ (
        "metadata",
        object (("name", str "pvc-1-backing") ∷ ("namespace", str "hcloud-csi-rwx") ∷ []),
      )
      ∷ []) in
    let f = with_pod "Running" (with_service (ok_route gets_claim claim new_api)) in
    let r = created (create_req "pvc-1" gib) f in
    every (
      is_ok r.0
      ∷ not (called (api_after r) posts_claims)
      ∷ not (called (api_after r) posts_services)
      ∷ not (called (api_after r) posts_pods)
      ∷ [])

abbrev deletes_pod : String
deletes_pod = "DELETE /api/v1/namespaces/hcloud-csi-rwx/pods/share-manager-pvc-1"

unfoldable create_volume_replaces_a_stuck_pending_share_manager : Bool
create_volume_replaces_a_stuck_pending_share_manager =
    let there = with_pod "Pending" (with_service (ok_route gets_claim nothing new_api)) in
    let f = ok_route posts_pods nothing (nodes_ready true (ok_route deletes_pod nothing there)) in
    let r = created (create_req "pvc-1" gib) f in is_late r.0 && called (api_after r) deletes_pod

unfoldable create_volume_cleans_up_after_a_timeout : Bool
create_volume_cleans_up_after_a_timeout =
    let f =
      ok_route "DELETE /api/v1/namespaces/hcloud-csi-rwx" nothing
        (ok_route posts_pods nothing (nodes_ready true (err_of gets_pod 404 nothing_there))) in
    let r = created (create_req "pvc-1" gib) f in
    every (
      is_late r.0
      ∷ called (api_after r) deletes_pod
      ∷ called (api_after r)
          "DELETE /api/v1/namespaces/hcloud-csi-rwx/persistentvolumeclaims/pvc-1-backing"
      ∷ called (api_after r) "DELETE /api/v1/namespaces/hcloud-csi-rwx/services/pvc-1"
      ∷ [])

unfoldable create_volume_fails_when_no_node_is_available : Bool
create_volume_fails_when_no_node_is_available =
    let there = with_service (ok_route gets_claim nothing new_api) in
    is_err (created (create_req "pvc-1" gib) (nodes_ready false (err_of gets_pod 404 there))).0

abbrev fast_req : CreateVolumeRequest
fast_req = record (create_req "pvc-1" gib) {
  parameters = ("backingStorageClass", "fast-nvme") ∷ (create_req "pvc-1" gib).parameters;
}

unfoldable create_volume_honours_the_backing_storage_class_parameter : Bool
create_volume_honours_the_backing_storage_class_parameter =
    let f =
      with_pod "Running"
        (with_service (ok_route posts_claims nothing (err_of gets_claim 404 new_api))) in
    let r = created fast_req f in
    is_ok r.0 && contains_text "fast-nvme" (first_body (api_after r) posts_claims)

abbrev deleted : String → FakeApi → Result Status (Unit {0}) × Session FakeApi
deleted name f = delete_volume client env codec 2 0 name (on_api f)

unfoldable delete_volume_removes_every_resource : Bool
delete_volume_removes_every_resource =
    let r = deleted "pvc-1" (ok_route "DELETE /api/v1/namespaces/hcloud-csi-rwx" nothing new_api) in
    every (
      is_ok r.0
      ∷ map (called (api_after r)) (
          deletes_pod
          ∷ "DELETE /api/v1/namespaces/hcloud-csi-rwx/persistentvolumeclaims/pvc-1-backing"
          ∷ "DELETE /api/v1/namespaces/hcloud-csi-rwx/services/pvc-1"
          ∷ "DELETE /api/v1/namespaces/hcloud-csi-rwx/configmaps/state-pvc-1" ∷ []))

unfoldable delete_volume_is_idempotent : Bool
delete_volume_is_idempotent = is_ok (deleted "gone" new_api).0

-- The tests pass.
volumes_pass :
    every (
      requested_size_rounds_up_to_gib ∷ create_volume_provisions_and_returns_the_endpoint
      ∷ create_volume_reuses_existing_resources
      ∷ create_volume_replaces_a_stuck_pending_share_manager
      ∷ create_volume_cleans_up_after_a_timeout ∷ create_volume_fails_when_no_node_is_available
      ∷ create_volume_honours_the_backing_storage_class_parameter
      ∷ delete_volume_removes_every_resource ∷ delete_volume_is_idempotent ∷ [])
    ≡ true
unfolding requested_size_rounds_up_to_gib create_volume_provisions_and_returns_the_endpoint
    create_volume_reuses_existing_resources create_volume_replaces_a_stuck_pending_share_manager
    create_volume_cleans_up_after_a_timeout create_volume_fails_when_no_node_is_available
    create_volume_honours_the_backing_storage_class_parameter delete_volume_removes_every_resource
    delete_volume_is_idempotent requested_gib round_up gib_bytes create_volume delete_volume
    provision_objects create_claim create_service create_pod clear_stuck wait_gone wait_running
    conclude wait pick_node choose suitable occupied_by ready backing_pvc_json service_json
    share_pod_json pod_env metrics_port pod_ports pod_annotations parse_i64 image pull_policy
    nfs_allowed_clients lease_lifetime grace_period export_mode monitoring_port
    backing_storage_class volume_name backing_pvc_name share_pod_name state_cm_name share_namespace
    env_or node_value node_list pod_value empty_list service_value lookup call first_reply
    contains_text get_object list_objects create_object delete_object ◌>>=◌
volumes_pass = refl
