-- ===== src/Controller/Reconcile.antt =====
-- `reconcile_body` and `start_failover` of src/controller.rs.
pub mod Pods
pub mod PriorNodes
pub mod Rounds
pub mod Moves
pub mod Requests
pub mod Healthy
pub mod Progress
pub mod Attached
pub mod Marked
pub mod Stored
use hcloud_csi_rwx.Prelude.{
  ℕ, String, Bool, false, true, Option, none, some, [], ◌∷◌, ◌++◌, ◌&&◌, ◌||◌, not, and_then,
  option_map, unwrap_or, is_some, any, contains, str_eq, ◌==◌, if◌then◌else◌,
}
use hcloud_csi_rwx.Kube.{KubeError, api, other, Result, ok, err, Pod, PersistentVolumeClaim, Client}
use hcloud_csi_rwx.Kube.Session.{
  Try, pure, fail, lift, attempt, map_err, recode, ◌>>=◌, ◌>>◌, Handle, pods_in, get_object,
  create_object, delete_object,
}
use hcloud_csi_rwx.Provision.Config.{Env, driver_name, share_namespace}
use hcloud_csi_rwx.Provision.Names.{volume_name, share_pod_name}
use hcloud_csi_rwx.Provision.Specs.{share_pod_json}
use hcloud_csi_rwx.Provision.Nodes.{AnyError, message, node_is_ready}
use hcloud_csi_rwx.Controller.State.{
  ShareState, Codec, kube_err, load_or_create_state, save_state, pick_node_with_reset,
  ensure_service,
}
use hcloud_csi_rwx.Controller.Detach.{
  bound_volume, force_detach_backing_pvc, is_backing_pvc_attached,
}
use hcloud_csi_rwx.Controller.Evict.{evict_workload_pods}

-- `kube::runtime::controller::Action`
pub data Action : Type 0 where
  requeue : ℕ → Action
  await_change : Action

abbrev is_mode : Option String → String → Bool
is_mode none mode = false
is_mode (some s) mode = str_eq s mode

unfoldable pub is_rwx_pvc : PersistentVolumeClaim → Bool
is_rwx_pvc pvc =
    is_mode (and_then pvc.spec (λ s. s.storage_class_name)) driver_name
    && unwrap_or
        (option_map (any (λ am. str_eq am "ReadWriteMany"))
          (and_then pvc.spec (λ s. s.access_modes)))
        false

-- `if let Some(n) = st.node.take() && !prior_nodes.contains(&n) { prior_nodes.push(n) }`
unfoldable pub retire_node : ShareState → ShareState
retire_node st = elim st.node [
  | none ↦ st
  | some n ↦ record st {
    node = none;
    prior_nodes = if contains st.prior_nodes n then st.prior_nodes else st.prior_nodes ++ n ∷ [];
  }
]

abbrev same_node : Option String → Option String → Bool
same_node none none = true
same_node none (some b) = false
same_node (some a) none = false
same_node (some a) (some b) = str_eq a b

abbrev pub pod_phase : Pod → String
pod_phase pod = unwrap_or (and_then pod.status (λ s. s.phase)) "Unknown"

abbrev pub pod_node : Pod → Option String
pod_node pod = and_then pod.spec (λ s. s.node_name)

module _ {W : Type 0} (k : Client W) (env : Env) (c : Codec) where
  module _ (volume pvc_name pvc_ns : String) where
    abbrev pub pod_api : Handle W Pod
    pod_api = pods_in k (share_namespace env)

    abbrev pub sm_pod : String
    sm_pod = share_pod_name (volume_name volume)

    unfoldable pub start_failover : ShareState → Try W KubeError Action
    start_failover st = do
      let failing = record (retire_node st) { state = "failing_over" }
      map_err (kube_err c) (save_state k env c failing)
      map_err (kube_err c) (force_detach_backing_pvc k env (volume_name volume))
      map_err (kube_err c) (evict_workload_pods k pvc_name pvc_ns)
      attempt (delete_object pod_api sm_pod)
      pure (requeue 3)

    -- A pod that runs: whether its node is Ready decides, and the state follows the pod.
    unfoldable pub running : ShareState → Option String → Bool → Try W KubeError Action
    unfolding start_failover
    running st host false = start_failover st
    running st host true =
        if not (str_eq st.state "running") || not (same_node st.node host)
        then (do
          map_err (kube_err c) (save_state k env c (record st { node = host; state = "running" }))
          pure (requeue 60))
        else pure (requeue 60)

    -- The readiness of the node of a running pod; without a node there is nothing to ask.
    unfoldable pub pod_node_ready : Option String → Try W KubeError Bool
    pod_node_ready none = pure true
    pod_node_ready (some host) = node_is_ready k env host

    unfoldable pub on_pod : ShareState → Pod → Try W KubeError Action
    unfolding running pod_node_ready start_failover
    on_pod st pod =
        let phase = pod_phase pod in
        if str_eq phase "Running"
        then (do ready ← pod_node_ready (pod_node pod); running st (pod_node pod) ready)
        else if str_eq phase "Failed" || str_eq phase "Unknown" || str_eq phase "Succeeded"
        then start_failover st
        else pure (requeue 10)

    unfoldable pub pod_created : Result KubeError Pod → Try W KubeError Action
    pod_created (ok _) = pure (requeue 5)
    pod_created (err (api code m)) = if code == 409 then pure (requeue 5) else fail (api code m)
    pod_created (err (other m)) = fail (other m)

    -- The new pod: its node is chosen and saved before it is created.
    unfoldable pub recreate : ShareState → Try W KubeError Action
    unfolding pod_created
    recreate st = do
      (node, st') ← map_err (kube_err c) (pick_node_with_reset k env c (retire_node st))
      map_err (kube_err c)
          (save_state k env c (record st' { node = some node; state = "starting" }))
      pod ← map_err (kube_err c) (
          lift (recode message (c.pod_from_value (share_pod_json env volume node pvc_name pvc_ns))))
      r ← attempt (create_object pod_api pod)
      pod_created r

    -- The first round without a pod marks the failover and evicts the workload.
    unfoldable pub mark_missing : ShareState → Try W KubeError ShareState
    mark_missing st =
        if not (str_eq st.state "failing_over")
        then (do
          let failing = record st { state = "failing_over" }
          map_err (kube_err c) (save_state k env c failing)
          map_err (kube_err c) (evict_workload_pods k pvc_name pvc_ns)
          pure failing)
        else pure st

    unfoldable pub detached : ShareState → Result AnyError (Unit {0}) → Try W KubeError Action
    unfolding recreate
    detached st (err e) = pure (requeue 5)
    detached st (ok _) = do
      attached ← is_backing_pvc_attached k env (volume_name volume)
      if attached then pure (requeue 3) else recreate st

    unfoldable pub on_missing : ShareState → Try W KubeError Action
    unfolding mark_missing detached
    on_missing st = do
      marked ← mark_missing st
      r ← attempt (force_detach_backing_pvc k env (volume_name volume))
      detached marked r

    unfoldable pub on_answer : ShareState → Result KubeError Pod → Try W KubeError Action
    unfolding on_pod on_missing
    on_answer st (ok pod) = on_pod st pod
    on_answer st (err (api code m)) = if code == 404 then on_missing st else fail (api code m)
    on_answer st (err (other m)) = fail (other m)

    -- A claim that is bound: the volume's state and service, then the pod.
    unfoldable pub reconcile_bound : Try W KubeError Action
    unfolding on_answer
    reconcile_bound = do
      st ← map_err (kube_err c) (load_or_create_state k env c volume)
      map_err (kube_err c) (ensure_service k env c volume)
      r ← attempt (get_object pod_api sm_pod)
      on_answer st r

  abbrev pub bound : PersistentVolumeClaim → Option String → Try W KubeError Action
  bound pvc none = pure (requeue 30)
  bound pvc (some volume) =
      reconcile_bound volume (unwrap_or pvc.name "") (unwrap_or pvc.namespace "")

  unfoldable pub reconcile_body : PersistentVolumeClaim → Try W KubeError Action
  unfolding reconcile_bound
  reconcile_body pvc =
      if not (is_rwx_pvc pvc)
      then pure (requeue 300)
      else if is_some pvc.deletion_timestamp
      then pure await_change
      else bound pvc (bound_volume pvc)

  -- `error_policy`
  abbrev pub error_policy : KubeError → Action
  error_policy e = requeue 30
