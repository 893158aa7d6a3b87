-- ===== src/Controller/Reconcile/Stored/Rounds.antt =====
-- The rounds of the controller keep the states of all shares.
use hcloud_csi_rwx.Prelude.{String, Bool, true, false, none, some, Option}
use hcloud_csi_rwx.Kube.{KubeError, api, other, Client, Pod, Result, ok, err, PersistentVolumeClaim}
use hcloud_csi_rwx.Kube.Session.{map_err}
use hcloud_csi_rwx.Kube.Keeps.{
  Keeps, Gives, Quiet, keeps_rules, Keeps-bind, Keeps-given, Keeps-if, Gives-map_err, Keeps-map_err,
  Keeps-pure, Keeps-fail, Keeps-attempt, Gives-pure, Gives-if, Gives-bind,
}
use hcloud_csi_rwx.Provision.Config.{Env}
use hcloud_csi_rwx.Provision.Nodes.{AnyError}
use hcloud_csi_rwx.Controller.State.{Codec, ShareState, save_state, kube_err}
use hcloud_csi_rwx.Controller.State.Persistence.{StateCodec}
use hcloud_csi_rwx.Controller.Reconcile.{
  reconcile_body, reconcile_bound, on_answer, on_missing, on_pod, mark_missing, detached, recreate,
  pod_created, pod_node_ready, running, start_failover, retire_node, bound,
}
use hcloud_csi_rwx.Controller.Reconcile.Stored.{IsShare, Server, Stored-Quiet}
use hcloud_csi_rwx.Controller.Reconcile.Stored.Steps.{
  I, save_state-Keeps, load-Keeps, load-Gives, pick-Gives,
}
use hcloud_csi_rwx.Controller.Reconcile.Requests.{
  Quiets, force_detach-Keeps, is_attached-Keeps, evict-Keeps, node_is_ready-Keeps, pick-Keeps,
  ensure_service-Keeps,
}
use hcloud_csi_rwx.Controller.Reconcile.Stored.Shares.{
  failing-IsShare, running-IsShare, retired-IsShare,
}

module _ {W : Type 0} (k : Client W) (env : Env) (c : Codec) (law : StateCodec c)
    (server : Server k env) where
  abbrev J : W → Type 0
  J = I k env c law server

  quiets : Quiets k J
  quiets = record {
    pods = λ ns. Stored-Quiet k env c law server (k.pods ns) (server.pods ns);
    claims = λ ns. Stored-Quiet k env c law server (k.claims ns) (server.claims ns);
    services = λ ns. Stored-Quiet k env c law server (k.services ns) (server.services ns);
    nodes = Stored-Quiet k env c law server k.nodes server.nodes;
    attachments = Stored-Quiet k env c law server k.attachments server.attachments;
  }

  Quiet-pods : (ns : String) → Quiet J (k.pods ns)
  Quiet-pods = quiets.pods

  module _ (volume pvc_name pvc_ns : String) where
    saved-Keeps :
        (st : ShareState)
        → IsShare volume st
        → Keeps J (map_err (kube_err c) (save_state k env c st))
    saved-Keeps st i = Keeps-map_err _ _ (save_state-Keeps k env c law server volume st i)

    start_failover-Keeps :
        (st : ShareState)
        → IsShare volume st
        → Keeps J (start_failover k env c volume pvc_name pvc_ns st)
    unfolding start_failover
    start_failover-Keeps st i = Keeps-bind _ _ (saved-Keeps _ (retired-IsShare volume st i)) (λ _.
        search
          (
            keeps_rules,
            Quiet-pods,
            (force_detach-Keeps k env c J quiets),
            (evict-Keeps k env c J quiets),
          )
          depth 9)

    running-Keeps :
        (st : ShareState) (host : Option String) (ready : Bool)
        → IsShare volume st
        → Keeps J (running k env c volume pvc_name pvc_ns st host ready)
    unfolding running
    running-Keeps st host false i = start_failover-Keeps st i
    running-Keeps st host true i =
        Keeps-if _ _ _
          (Keeps-bind _ _ (saved-Keeps _ (running-IsShare volume st host i)) (λ _. Keeps-pure _))
          (Keeps-pure _)

    pod_node_ready-Keeps :
        (node : Option String) → Keeps J (pod_node_ready k env c volume pvc_name pvc_ns node)
    unfolding pod_node_ready
    pod_node_ready-Keeps none = search keeps_rules
    pod_node_ready-Keeps (some n) = (node_is_ready-Keeps k env c J quiets) n

    on_pod-Keeps :
        (st : ShareState) (pod : Pod)
        → IsShare volume st
        → Keeps J (on_pod k env c volume pvc_name pvc_ns st pod)
    unfolding on_pod
    on_pod-Keeps st pod i =
        Keeps-if _ _ _
          (Keeps-bind _ _ (pod_node_ready-Keeps _) (λ ready. running-Keeps st _ ready i))
          (Keeps-if _ _ _ (start_failover-Keeps st i) (Keeps-pure _))

    pod_created-Keeps :
        (r : Result KubeError Pod) → Keeps J (pod_created k env c volume pvc_name pvc_ns r)
    unfolding pod_created
    pod_created-Keeps (ok _) = search keeps_rules
    pod_created-Keeps (err (api code m)) = search keeps_rules
    pod_created-Keeps (err (other m)) = search keeps_rules

    recreate-Keeps :
        (st : ShareState) → IsShare volume st → Keeps J (recreate k env c volume pvc_name pvc_ns st)
    unfolding recreate
    recreate-Keeps st i =
        Keeps-given _ _ _ (Keeps-map_err _ _ ((pick-Keeps k env c J quiets) (retire_node st)))
          (Gives-map_err _ _ (pick-Gives k env c law server volume st i))
          (λ p chosen.
            Keeps-bind _ _ (saved-Keeps _ chosen)
              (λ _. search (keeps_rules, Quiet-pods, pod_created-Keeps) depth 9))

    mark_missing-Keeps :
        (st : ShareState)
        → IsShare volume st
        → Keeps J (mark_missing k env c volume pvc_name pvc_ns st)
    unfolding mark_missing
    mark_missing-Keeps st i =
        Keeps-if _ _ _
          (Keeps-bind _ _ (saved-Keeps _ (failing-IsShare volume st i))
            (λ _. search (keeps_rules, (evict-Keeps k env c J quiets)) depth 6))
          (Keeps-pure _)

    mark_missing-Gives :
        (st : ShareState)
        → IsShare volume st
        → Gives J (IsShare volume) (mark_missing k env c volume pvc_name pvc_ns st)
    unfolding mark_missing
    mark_missing-Gives st i =
        let failing = failing-IsShare volume st i in
        Gives-if _ _ _
          (Gives-bind (λ _. Unit {0}) _ _ _ (saved-Keeps _ failing) (record { at = λ s a j h. tt })
            (λ _ _.
              Gives-bind (λ _. Unit {0}) _ _ _
                (Keeps-map_err _ _ ((evict-Keeps k env c J quiets) _ _))
                (record { at = λ s a j h. tt }) (λ _ _. Gives-pure _ failing)))
          (Gives-pure _ i)

    detached-Keeps :
        (st : ShareState) (r : Result AnyError (Unit {0}))
        → IsShare volume st
        → Keeps J (detached k env c volume pvc_name pvc_ns st r)
    unfolding detached
    detached-Keeps st (err e) i = search keeps_rules
    detached-Keeps st (ok _) i =
        Keeps-bind _ _ ((is_attached-Keeps k env c J quiets) _)
          (λ attached. Keeps-if attached _ _ (Keeps-pure _) (recreate-Keeps st i))

    on_missing-Keeps :
        (st : ShareState)
        → IsShare volume st
        → Keeps J (on_missing k env c volume pvc_name pvc_ns st)
    unfolding on_missing
    on_missing-Keeps st i =
        Keeps-given (IsShare volume) _ _ (mark_missing-Keeps st i) (mark_missing-Gives st i)
          (λ marked im.
            Keeps-bind _ _ (Keeps-attempt _ ((force_detach-Keeps k env c J quiets) _))
              (λ r. detached-Keeps marked r im))

    on_answer-Keeps :
        (st : ShareState) (r : Result KubeError Pod)
        → IsShare volume st
        → Keeps J (on_answer k env c volume pvc_name pvc_ns st r)
    unfolding on_answer
    on_answer-Keeps st (ok pod) i = on_pod-Keeps st pod i
    on_answer-Keeps st (err (api code m)) i = Keeps-if _ _ _ (on_missing-Keeps st i) (Keeps-fail _)
    on_answer-Keeps st (err (other m)) i = Keeps-fail _

    reconcile_bound-Keeps : Keeps J (reconcile_bound k env c volume pvc_name pvc_ns)
    unfolding reconcile_bound
    reconcile_bound-Keeps =
        Keeps-given (IsShare volume) _ _ (Keeps-map_err _ _ (load-Keeps k env c law server volume))
          (Gives-map_err _ _ (load-Gives k env c law server volume))
          (λ st i.
            Keeps-bind _ _ (Keeps-map_err _ _ ((ensure_service-Keeps k env c J quiets) volume))
              (λ _.
                Keeps-bind _ _ (search (keeps_rules, Quiet-pods) depth 6)
                  (λ r. on_answer-Keeps st r i)))

  bound-Keeps : (pvc : PersistentVolumeClaim) (v : Option String) → Keeps J (bound k env c pvc v)
  bound-Keeps pvc none = search keeps_rules
  bound-Keeps pvc (some volume) = reconcile_bound-Keeps volume _ _

  -- A round for any claim keeps the states of all shares.
  pub reconcile_body-Keeps : (pvc : PersistentVolumeClaim) → Keeps J (reconcile_body k env c pvc)
  unfolding reconcile_body
  reconcile_body-Keeps pvc = search (keeps_rules, bound-Keeps)
