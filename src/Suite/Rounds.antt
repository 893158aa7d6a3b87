-- ===== src/Suite/Rounds.antt =====
-- The tests of src/controller.rs that run a round of the controller.
use hcloud_csi_rwx.Prelude.{
  ℕ, String, ◌≡◌, refl, Bool, true, false, not, ◌&&◌, ◌==◌, Option, none, some, List, [], ◌∷◌, any,
}
use hcloud_csi_rwx.Json.{str, object}
use hcloud_csi_rwx.Kube.{KubeError, Result, ok, err, api, other, PersistentVolumeClaim}
use hcloud_csi_rwx.Kube.Session.{Session, ◌>>=◌, get_object, patch_object}
use hcloud_csi_rwx.Map.{lookup}
use hcloud_csi_rwx.Exec.Fake.{contains_text}
use hcloud_csi_rwx.Provision.Config.{env_or, share_namespace}
use hcloud_csi_rwx.Provision.Names.{volume_name, share_pod_name, state_cm_name}
use hcloud_csi_rwx.Provision.Nodes.{message, node_is_ready, ready}
use hcloud_csi_rwx.Controller.State.{
  kube_err, state_data, state_of, state_read, load_or_create_state, save_state, service_read,
  ensure_service,
}
use hcloud_csi_rwx.Controller.Reconcile.{
  Action, requeue, await_change, is_rwx_pvc, running, pod_node_ready, on_pod, on_answer,
  reconcile_bound, reconcile_body, error_policy,
}
use hcloud_csi_rwx.Testing.{FakeApi, new_api, ok_route, bodies, call, first_reply}
use hcloud_csi_rwx.Testing.Fixtures.{node_value, pod_value, pvc, state_cm_value, service_value}
use hcloud_csi_rwx.Suite.Disk.{is_err, every}
use hcloud_csi_rwx.Suite.Server.{client, env, on_api, api_after, claim_of}
use hcloud_csi_rwx.Suite.States.{codec, err_of}
use hcloud_csi_rwx.Suite.Attachments.{with_service, untouched}

abbrev pub rwx_claim : Option String → PersistentVolumeClaim
rwx_claim volume =
    claim_of (pvc "rwx-test" "default" "hcloud-csi-rwx" ("ReadWriteMany" ∷ []) volume)

-- The routes that a round needs to get past the state and the service.
abbrev pub with_base : String → FakeApi
with_base state = with_service (
    ok_route "PATCH /api/v1/namespaces/hcloud-csi-rwx/configmaps/state-pvc-1"
      (state_cm_value "state-pvc-1" state)
      (ok_route "GET /api/v1/namespaces/hcloud-csi-rwx/configmaps/state-pvc-1"
        (state_cm_value "state-pvc-1" state) new_api))

abbrev pub reconciled : PersistentVolumeClaim → FakeApi → Result KubeError Action × Session FakeApi
reconciled claim f = reconcile_body client env codec claim (on_api f)

abbrev pub requeues : ℕ → Result KubeError Action → Bool
requeues secs (ok (requeue n)) = n == secs
requeues secs (ok await_change) = false
requeues secs (err e) = false

abbrev awaits_change : Result KubeError Action → Bool
awaits_change (ok (requeue n)) = false
awaits_change (ok await_change) = true
awaits_change (err e) = false

abbrev claim_with : String → List String → PersistentVolumeClaim
claim_with sc modes = claim_of (pvc "c" "default" sc modes none)

unfoldable rwx_pvc_detection : Bool
rwx_pvc_detection = every (
    is_rwx_pvc (claim_with "hcloud-csi-rwx" ("ReadWriteMany" ∷ []))
    ∷ not (is_rwx_pvc (claim_with "hcloud-csi-rwx" ("ReadWriteOnce" ∷ [])))
    ∷ not (is_rwx_pvc (claim_with "hcloud-volumes" ("ReadWriteMany" ∷ [])))
    ∷ [])

abbrev bare_claim : PersistentVolumeClaim
bare_claim = claim_of (
    object (
      ("apiVersion", str "v1")
      ∷ ("kind", str "PersistentVolumeClaim")
      ∷ ("metadata", object (("name", str "c") ∷ ("namespace", str "default") ∷ []))
      ∷ []))

unfoldable only_rwx_claims_of_our_storage_class_qualify : Bool
only_rwx_claims_of_our_storage_class_qualify = every (
    is_rwx_pvc (claim_with "hcloud-csi-rwx" ("ReadWriteMany" ∷ []))
    ∷ not (is_rwx_pvc (claim_with "hcloud-csi-rwx" ("ReadWriteOnce" ∷ [])))
    ∷ not (is_rwx_pvc (claim_with "hcloud-volumes" ("ReadWriteMany" ∷ [])))
    ∷ not (is_rwx_pvc bare_claim)
    ∷ [])

unfoldable foreign_claims_are_requeued_without_api_calls : Bool
foreign_claims_are_requeued_without_api_calls =
    let r = reconciled (claim_with "hcloud-volumes" ("ReadWriteOnce" ∷ [])) new_api in
    requeues 300 r.0 && untouched (api_after r)

unfoldable terminating_claims_are_left_to_the_csi_driver : Bool
terminating_claims_are_left_to_the_csi_driver =
    let claim = record (rwx_claim (some "pvc-1")) { deletion_timestamp = some "now" } in
    let r = reconciled claim new_api in awaits_change r.0 && untouched (api_after r)

unfoldable unbound_claims_wait_for_the_provisioner : Bool
unbound_claims_wait_for_the_provisioner =
    let r = reconciled (rwx_claim none) new_api in requeues 30 r.0 && untouched (api_after r)

abbrev pub gets_pod : String
gets_pod = "GET /api/v1/namespaces/hcloud-csi-rwx/pods/share-manager-pvc-1"

-- The pod of the share on the first node, in this phase.
abbrev pub with_pod : String → FakeApi → FakeApi
with_pod phase = ok_route gets_pod (pod_value "share-manager-pvc-1" "n1" phase)

abbrev pub saved : FakeApi → List String
saved f = bodies f "PATCH /api/v1/namespaces/hcloud-csi-rwx/configmaps/state-pvc-1"

abbrev starting : FakeApi
starting = with_base "{\"volume\":\"pvc-1\",\"state\":\"starting\"}"

unfoldable running_share_manager_is_recorded_and_requeued : Bool
running_share_manager_is_recorded_and_requeued =
    let f = ok_route "GET /api/v1/nodes/n1" (node_value "n1" true) (with_pod "Running" starting) in
    let r = reconciled (rwx_claim (some "pvc-1")) f in
    every (
      requeues 60 r.0
      ∷ any (contains_text "running") (saved (api_after r))
      ∷ any (contains_text "n1") (saved (api_after r))
      ∷ [])

unfoldable pods_still_starting_are_polled_again : Bool
pods_still_starting_are_polled_again =
    requeues 10 (reconciled (rwx_claim (some "pvc-1")) (with_pod "Pending" starting)).0

unfoldable helpers_wrap_errors_and_requeue : Bool
helpers_wrap_errors_and_requeue =
    wrapped (kube_err codec (message "boom"))
    && requeues 30 (ok (error_policy client env codec (other "x")))
  where
    wrapped : KubeError → Bool
    wrapped (api code m) = (code == 500) && contains_text "boom" m
    wrapped (other m) = false

unfoldable reconcile_surfaces_api_errors : Bool
reconcile_surfaces_api_errors =
    let f = err_of "GET /api/v1/namespaces/hcloud-csi-rwx/configmaps/state-pvc-1" 500 new_api in
    is_err (reconciled (rwx_claim (some "pvc-1")) f).0

-- The tests of claims and of rounds with a healthy pod pass.
rounds_pass :
    every (
      rwx_pvc_detection ∷ only_rwx_claims_of_our_storage_class_qualify
      ∷ foreign_claims_are_requeued_without_api_calls
      ∷ terminating_claims_are_left_to_the_csi_driver ∷ unbound_claims_wait_for_the_provisioner
      ∷ running_share_manager_is_recorded_and_requeued ∷ pods_still_starting_are_polled_again
      ∷ helpers_wrap_errors_and_requeue ∷ reconcile_surfaces_api_errors ∷ [])
    ≡ true
unfolding rwx_pvc_detection only_rwx_claims_of_our_storage_class_qualify
    foreign_claims_are_requeued_without_api_calls terminating_claims_are_left_to_the_csi_driver
    unbound_claims_wait_for_the_provisioner running_share_manager_is_recorded_and_requeued
    pods_still_starting_are_polled_again helpers_wrap_errors_and_requeue
    reconcile_surfaces_api_errors is_rwx_pvc reconcile_body reconcile_bound on_answer on_pod running
    pod_node_ready node_is_ready ready kube_err load_or_create_state state_read state_of state_data
    save_state state_cm_name ensure_service service_read volume_name share_pod_name share_namespace
    env_or node_value pod_value pvc state_cm_value service_value lookup call first_reply
    contains_text get_object patch_object ◌>>=◌
rounds_pass = refl
