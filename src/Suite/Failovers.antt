-- ===== src/Suite/Failovers.antt =====
-- The tests of src/controller.rs that fail a share over and create its pod again.
use hcloud_csi_rwx.Prelude.{
  String, ◌≡◌, refl, Bool, true, false, not, ◌&&◌, some, List, [], ◌∷◌, any,
}
use hcloud_csi_rwx.Json.{Value}
use hcloud_csi_rwx.Kube.Session.{
  ◌>>=◌, get_object, list_objects, create_object, patch_object, delete_object,
}
use hcloud_csi_rwx.Map.{lookup}
use hcloud_csi_rwx.Exec.Fake.{contains_text}
use hcloud_csi_rwx.Provision.Config.{
  env_or, share_namespace, image, pull_policy, nfs_allowed_clients, lease_lifetime, grace_period,
  export_mode, monitoring_port,
}
use hcloud_csi_rwx.Provision.Number.{parse_i64}
use hcloud_csi_rwx.Provision.Names.{volume_name, backing_pvc_name, share_pod_name, state_cm_name}
use hcloud_csi_rwx.Provision.Specs.{
  share_pod_json, pod_env, metrics_port, pod_ports, pod_annotations,
}
use hcloud_csi_rwx.Provision.Nodes.{node_is_ready, ready, occupied_by, suitable, choose, pick_node}
use hcloud_csi_rwx.Controller.State.{
  kube_err, state_data, state_of, state_read, load_or_create_state, save_state, service_read,
  ensure_service, picked, pick_node_with_reset,
}
use hcloud_csi_rwx.Controller.Detach.{
  backing_pv_name, detach_loop, detach_from, force_detach_backing_pvc, attached_from,
  is_backing_pvc_attached,
}
use hcloud_csi_rwx.Controller.Evict.{evict_loop, evict_workload_pods}
use hcloud_csi_rwx.Controller.Reconcile.{
  is_rwx_pvc, retire_node, start_failover, running, pod_node_ready, on_pod, on_answer,
  reconcile_bound, reconcile_body, mark_missing, detached, recreate, pod_created, on_missing,
}
use hcloud_csi_rwx.Testing.{FakeApi, ok_route, called, call, first_reply}
use hcloud_csi_rwx.Testing.Fixtures.{
  node_value, node_list, pod_value, empty_list, pvc, state_cm_value, service_value,
  volume_attachment, va_list,
}
use hcloud_csi_rwx.Suite.Disk.{is_ok, every}
use hcloud_csi_rwx.Suite.Server.{api_after}
use hcloud_csi_rwx.Suite.States.{err_of, first_body}
use hcloud_csi_rwx.Suite.Attachments.{nothing, with_backing, with_attachments, deletes_va1}
use hcloud_csi_rwx.Suite.Rounds.{
  rwx_claim, with_base, with_pod, reconciled, requeues, saved, gets_pod,
}

abbrev on_first_node : FakeApi
on_first_node = with_base "{\"volume\":\"pvc-1\",\"node\":\"n1\",\"state\":\"running\"}"

abbrev deletes_pod : String
deletes_pod = "DELETE /api/v1/namespaces/hcloud-csi-rwx/pods/share-manager-pvc-1"

-- What a failover asks: the backing claim, the attachments, the pods of the workload, and the deletion of
-- the pod.
abbrev failing : List Value → FakeApi → FakeApi
failing vas f = ok_route deletes_pod nothing (
    ok_route "GET /api/v1/namespaces/default/pods" (empty_list "PodList")
      (with_attachments vas (with_backing (some "pv-1") f)))

abbrev va1 : List Value
va1 = volume_attachment "va1" "pv-1" ∷ []

unfoldable failed_pod_triggers_failover : Bool
failed_pod_triggers_failover =
    let f = ok_route deletes_va1 nothing (failing va1 (with_pod "Failed" on_first_node)) in
    let r = reconciled (rwx_claim (some "pvc-1")) f in
    every (
      requeues 3 r.0
      ∷ called (api_after r) deletes_va1
      ∷ called (api_after r) deletes_pod
      ∷ any (contains_text "failing_over") (saved (api_after r))
      ∷ any (contains_text "prior_nodes") (saved (api_after r))
      ∷ [])

unfoldable succeeded_pod_also_triggers_failover : Bool
succeeded_pod_also_triggers_failover =
    let f = failing [] (with_pod "Succeeded" on_first_node) in
    let r = reconciled (rwx_claim (some "pvc-1")) f in is_ok r.0 && called (api_after r) deletes_pod

unfoldable running_pod_on_a_notready_node_triggers_failover : Bool
running_pod_on_a_notready_node_triggers_failover =
    let f = failing [] (
      ok_route "GET /api/v1/nodes/n1" (node_value "n1" false) (with_pod "Running" on_first_node)) in
    let r = reconciled (rwx_claim (some "pvc-1")) f in is_ok r.0 && called (api_after r) deletes_pod

-- A share whose pod is gone while it fails over from the first node.
abbrev gone : FakeApi
gone =
    err_of gets_pod 404
      (with_base "{\"volume\":\"pvc-1\",\"node\":\"n1\",\"state\":\"failing_over\"}")

abbrev posts_pods : String
posts_pods = "POST /api/v1/namespaces/hcloud-csi-rwx/pods"

abbrev free : List (String × Bool) → FakeApi → FakeApi
free nodes f =
    ok_route "GET /api/v1/nodes" (node_list nodes)
      (ok_route "GET /api/v1/namespaces/hcloud-csi-rwx/pods?" (empty_list "PodList") f)

-- The pod of the model has no node selector; the node it is made for is the one that is saved.
unfoldable missing_pod_is_recreated_on_a_different_node : Bool
missing_pod_is_recreated_on_a_different_node =
    let f = ok_route posts_pods nothing (
      free (("n1", true) ∷ ("n2", true) ∷ [])
        (with_attachments [] (with_backing (some "pv-1") gone))) in
    let r = reconciled (rwx_claim (some "pvc-1")) f in
    every (
      requeues 5 r.0
      ∷ contains_text "\"node\":\"n2\"" (first_body (api_after r) "PATCH")
      ∷ contains_text "rwx-pvc-name" (first_body (api_after r) posts_pods)
      ∷ [])

unfoldable recreation_waits_while_the_volume_is_still_attached : Bool
recreation_waits_while_the_volume_is_still_attached =
    let f = ok_route deletes_va1 nothing (with_attachments va1 (with_backing (some "pv-1") gone)) in
    let r = reconciled (rwx_claim (some "pvc-1")) f in
    requeues 3 r.0 && not (called (api_after r) posts_pods)

unfoldable recreation_tolerates_a_race_with_the_csi_driver : Bool
recreation_tolerates_a_race_with_the_csi_driver =
    let unplaced =
      err_of gets_pod 404 (with_base "{\"volume\":\"pvc-1\",\"state\":\"failing_over\"}") in
    let unclaimed =
      err_of "GET /api/v1/namespaces/hcloud-csi-rwx/persistentvolumeclaims/pvc-1-backing" 404
        unplaced in
    let f = err_of posts_pods 409 (free (("n1", true) ∷ []) (with_attachments [] unclaimed)) in
    is_ok (reconciled (rwx_claim (some "pvc-1")) f).0

-- The tests of the start of a failover pass.
failovers_pass :
    every (
      failed_pod_triggers_failover ∷ succeeded_pod_also_triggers_failover
      ∷ running_pod_on_a_notready_node_triggers_failover ∷ [])
    ≡ true
unfolding failed_pod_triggers_failover succeeded_pod_also_triggers_failover
    running_pod_on_a_notready_node_triggers_failover is_rwx_pvc reconcile_body reconcile_bound
    on_answer on_pod running start_failover retire_node pod_node_ready node_is_ready ready kube_err
    load_or_create_state state_read state_of state_data save_state state_cm_name ensure_service
    service_read force_detach_backing_pvc detach_from detach_loop backing_pv_name backing_pvc_name
    evict_workload_pods evict_loop volume_name share_pod_name share_namespace env_or node_value
    pod_value pvc empty_list va_list volume_attachment state_cm_value service_value lookup call
    first_reply contains_text get_object list_objects patch_object delete_object ◌>>=◌
failovers_pass = refl

-- The tests of the new pod pass.
recreations_pass :
    every (
      missing_pod_is_recreated_on_a_different_node
      ∷ recreation_waits_while_the_volume_is_still_attached
      ∷ recreation_tolerates_a_race_with_the_csi_driver ∷ [])
    ≡ true
unfolding missing_pod_is_recreated_on_a_different_node
    recreation_waits_while_the_volume_is_still_attached
    recreation_tolerates_a_race_with_the_csi_driver is_rwx_pvc reconcile_body reconcile_bound
    on_answer on_missing mark_missing detached recreate pod_created retire_node pick_node_with_reset
    picked pick_node choose suitable occupied_by ready kube_err load_or_create_state state_read
    state_of state_data save_state state_cm_name ensure_service service_read
    force_detach_backing_pvc detach_from detach_loop is_backing_pvc_attached attached_from
    backing_pv_name backing_pvc_name share_pod_json pod_env metrics_port pod_ports pod_annotations
    parse_i64 image pull_policy nfs_allowed_clients lease_lifetime grace_period export_mode
    monitoring_port volume_name share_pod_name share_namespace env_or node_value node_list pvc
    empty_list va_list volume_attachment state_cm_value service_value lookup call first_reply
    contains_text get_object list_objects create_object patch_object delete_object ◌>>=◌
recreations_pass = refl
