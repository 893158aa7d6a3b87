-- ===== src/Controller/Reconcile/Pods.antt =====
-- Which rounds of the controller create a pod.
use hcloud_csi_rwx.Prelude.{String, Bool, true, false, List, [], ◌∷◌, Option, some, none, ◌≡◌, ◌==◌}
use hcloud_csi_rwx.Kube.{VolumeAttachment, Client, Pod, Result, KubeError, ok, err, api, other}
use hcloud_csi_rwx.Kube.Session.{Call, Kind, create, pods, Session}
use hcloud_csi_rwx.Kube.Avoids.{Avoids, avoids_rules, Avoids-if, Avoids-bind, count, Avoids-fail}
use hcloud_csi_rwx.Provision.Config.{Env}
use hcloud_csi_rwx.Controller.State.{Codec, ShareState, save_state}
use hcloud_csi_rwx.Controller.Detach.{
  detach_loop, backing_pv_name, detach_from, is_backing_pvc_attached, attached_from,
  force_detach_backing_pvc,
}
use hcloud_csi_rwx.Controller.Evict.{evict_loop, evict_workload_pods}
use hcloud_csi_rwx.Controller.Reconcile.{
  mark_missing, start_failover, on_answer, pod_node_ready, running, on_pod,
}
use hcloud_csi_rwx.Provision.Nodes.{node_is_ready}

abbrev is_pods : Kind → Bool
is_pods (pods ns) = true
is_pods _ = false

-- The request creates a pod.
abbrev pub creates_pod : Call → Bool
creates_pod (create kind o) = is_pods kind
creates_pod _ = false

module _ {W : Type 0} (k : Client W) (env : Env) (c : Codec) where
  pub save_state-creates_none : (st : ShareState) → Avoids creates_pod (save_state k env c st)
  unfolding save_state
  save_state-creates_none st = search avoids_rules

  detach_loop-creates_none :
      (pv : String) (vas : List VolumeAttachment) → Avoids creates_pod (detach_loop k env pv vas)
  unfolding detach_loop
  detach_loop-creates_none pv [] = search avoids_rules
  detach_loop-creates_none pv (va ∷ vas) =
      Avoids-if _ _ _ (Avoids-bind _ _ (search avoids_rules) (λ _. detach_loop-creates_none pv vas))
        (detach_loop-creates_none pv vas)

  backing_pv_name-creates_none :
      {E : Type 0} (vn : String) → Avoids creates_pod (backing_pv_name k env {E = E} vn)
  unfolding backing_pv_name
  backing_pv_name-creates_none vn = search avoids_rules

  detach_from-creates_none : (pv : Option String) → Avoids creates_pod (detach_from k env pv)
  unfolding detach_from
  detach_from-creates_none none = search avoids_rules
  detach_from-creates_none (some pv) = search (avoids_rules, detach_loop-creates_none)

  pub force_detach-creates_none :
      (vn : String) → Avoids creates_pod (force_detach_backing_pvc k env vn)
  unfolding force_detach_backing_pvc
  force_detach-creates_none vn =
      search (avoids_rules, backing_pv_name-creates_none, detach_from-creates_none)

  attached_from-creates_none :
      {E : Type 0} (pv : Option String) → Avoids creates_pod (attached_from k env {E = E} pv)
  unfolding attached_from
  attached_from-creates_none none = search avoids_rules
  attached_from-creates_none (some pv) = search avoids_rules

  pub is_attached-creates_none :
      {E : Type 0} (vn : String) → Avoids creates_pod (is_backing_pvc_attached k env {E = E} vn)
  unfolding is_backing_pvc_attached
  is_attached-creates_none vn =
      search (avoids_rules, backing_pv_name-creates_none, attached_from-creates_none)

  evict_loop-creates_none :
      (n ns : String) (l : List Pod) → Avoids creates_pod (evict_loop k n ns l)
  unfolding evict_loop
  evict_loop-creates_none n ns [] = search avoids_rules
  evict_loop-creates_none n ns (p ∷ l) =
      Avoids-if _ _ _ (Avoids-bind _ _ (search avoids_rules) (λ _. evict_loop-creates_none n ns l))
        (evict_loop-creates_none n ns l)

  evict-creates_none : (n ns : String) → Avoids creates_pod (evict_workload_pods k n ns)
  unfolding evict_workload_pods
  evict-creates_none n ns = search (avoids_rules, evict_loop-creates_none) depth 7

  ruleset creates_none_rules = (
    avoids_rules, save_state-creates_none, force_detach-creates_none, is_attached-creates_none,
    evict-creates_none,
  )

  module _ (volume pvc_name pvc_ns : String) where
    start_failover-creates_none :
        (st : ShareState) → Avoids creates_pod (start_failover k env c volume pvc_name pvc_ns st)
    unfolding start_failover
    start_failover-creates_none st = search creates_none_rules depth 8

    node_is_ready-creates_none :
        {E : Type 0} (node : String) → Avoids creates_pod (node_is_ready k env {E = E} node)
    unfolding node_is_ready
    node_is_ready-creates_none node = search avoids_rules

    pod_node_ready-creates_none :
        (node : Option String)
        → Avoids creates_pod (pod_node_ready k env c volume pvc_name pvc_ns node)
    unfolding pod_node_ready
    pod_node_ready-creates_none none = search avoids_rules
    pod_node_ready-creates_none (some n) = node_is_ready-creates_none n

    running-creates_none :
        (st : ShareState) (host : Option String) (ready : Bool)
        → Avoids creates_pod (running k env c volume pvc_name pvc_ns st host ready)
    unfolding running
    running-creates_none st host false = start_failover-creates_none st
    running-creates_none st host true = search creates_none_rules depth 8

    on_pod-creates_none :
        (st : ShareState) (pod : Pod)
        → Avoids creates_pod (on_pod k env c volume pvc_name pvc_ns st pod)
    unfolding on_pod
    on_pod-creates_none st pod =
        search
          (
            avoids_rules, start_failover-creates_none, running-creates_none,
            pod_node_ready-creates_none,
          )
          depth 8

    pub mark_missing-creates_none :
        (st : ShareState) → Avoids creates_pod (mark_missing k env c volume pvc_name pvc_ns st)
    unfolding mark_missing
    mark_missing-creates_none st = search creates_none_rules depth 8

    -- The API answered that there is no such pod.
    abbrev pub is_not_found : Result KubeError Pod → Bool
    is_not_found (ok pod) = false
    is_not_found (err (api code m)) = code == 404
    is_not_found (err (other m)) = false

    -- Unless the answer to the look-up of the pod is 404, a round creates no pod: none while the
    -- old one stands, and none while it is not known.
    pub on_answer-creates_none :
        (st : ShareState) (answer : Result KubeError Pod) (s : Session W)
        → is_not_found answer ≡ false
        → count creates_pod (on_answer k env c volume pvc_name pvc_ns st answer s).1.calls
          ≡ count creates_pod s.calls
    unfolding on_answer
    on_answer-creates_none st (ok pod) s h = (on_pod-creates_none st pod).at s
    on_answer-creates_none st (err (api code m)) s h = rw h ((Avoids-fail (api code m)).at s)
    on_answer-creates_none st (err (other m)) s h = (Avoids-fail (other m)).at s
