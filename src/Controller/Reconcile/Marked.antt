-- ===== src/Controller/Reconcile/Marked.antt =====
-- What a failed eviction leaves behind: `mark_missing` of src/controller.rs, the step of a round
-- without a pod that marks the failover and evicts the workload.
use hcloud_csi_rwx.Prelude.{
  String, ◌≡◌, refl, Bool, true, false, none, some, List, [], ◌∷◌, str_eq, Option,
}
use hcloud_csi_rwx.Kube.{
  Client, ConfigMap, KubeError, Pod, Result, VolumeAttachment, api, other, ok, err,
}
use hcloud_csi_rwx.Kube.Session.{Session, Call, Kind, pods, delete, ◌>>=◌}
use hcloud_csi_rwx.Kube.Store.{Store}
use hcloud_csi_rwx.Kube.Avoids.{Avoids, avoids_rules, Avoids-if, Avoids-bind, count}
use hcloud_csi_rwx.Provision.Config.{Env, share_namespace}
use hcloud_csi_rwx.Provision.Nodes.{AnyError, pick_node}
use hcloud_csi_rwx.Controller.State.{
  Codec, ShareState, save_state, kube_err, load_or_create_state, pick_node_with_reset, picked,
}
use hcloud_csi_rwx.Controller.State.Persistence.{StateCodec, cm_of, save_state-found, load_patched}
use hcloud_csi_rwx.Controller.Detach.{
  detach_loop, backing_pv_name, detach_from, attached_from, is_backing_pvc_attached,
  force_detach_backing_pvc,
}
use hcloud_csi_rwx.Controller.Evict.{evict_workload_pods}
use hcloud_csi_rwx.Controller.Reconcile.{on_missing, mark_missing, detached, recreate, pod_created}
use hcloud_csi_rwx.Controller.Reconcile.Requests.{Quiets, evict-Keeps}

abbrev is_pods : Kind → Bool
is_pods (pods ns) = true
is_pods _ = false

-- The request deletes a pod, of whatever namespace.
abbrev pub deletes_pod : Call → Bool
deletes_pod (delete kind n) = is_pods kind
deletes_pod _ = false

module _ {W : Type 0} (k : Client W) (env : Env) (c : Codec) where
  save_state-spares : (st : ShareState) → Avoids deletes_pod (save_state k env c st)
  unfolding save_state
  save_state-spares st = search avoids_rules

  detach_loop-spares :
      (pv : String) (vas : List VolumeAttachment) → Avoids deletes_pod (detach_loop k env pv vas)
  unfolding detach_loop
  detach_loop-spares pv [] = search avoids_rules
  detach_loop-spares pv (va ∷ vas) =
      Avoids-if _ _ _ (Avoids-bind _ _ (search avoids_rules) (λ _. detach_loop-spares pv vas))
        (detach_loop-spares pv vas)

  backing_pv_name-spares :
      {E : Type 0} (vn : String) → Avoids deletes_pod (backing_pv_name k env {E = E} vn)
  unfolding backing_pv_name
  backing_pv_name-spares vn = search avoids_rules

  detach_from-spares : (pv : Option String) → Avoids deletes_pod (detach_from k env pv)
  unfolding detach_from
  detach_from-spares none = search avoids_rules
  detach_from-spares (some pv) = search (avoids_rules, detach_loop-spares)

  force_detach-spares : (vn : String) → Avoids deletes_pod (force_detach_backing_pvc k env vn)
  unfolding force_detach_backing_pvc
  force_detach-spares vn = search (avoids_rules, backing_pv_name-spares, detach_from-spares)

  attached_from-spares :
      {E : Type 0} (pv : Option String) → Avoids deletes_pod (attached_from k env {E = E} pv)
  unfolding attached_from
  attached_from-spares none = search avoids_rules
  attached_from-spares (some pv) = search avoids_rules

  is_attached-spares :
      {E : Type 0} (vn : String) → Avoids deletes_pod (is_backing_pvc_attached k env {E = E} vn)
  unfolding is_backing_pvc_attached
  is_attached-spares vn = search (avoids_rules, backing_pv_name-spares, attached_from-spares)

  pick_node-spares : (avoid : List String) → Avoids deletes_pod (pick_node k env avoid)
  unfolding pick_node
  pick_node-spares avoid = search avoids_rules depth 9

  picked-spares :
      (st : ShareState) (r : Result AnyError String) → Avoids deletes_pod (picked k env c st r)
  unfolding picked
  picked-spares st (ok n) = search avoids_rules
  picked-spares st (err e) = search (avoids_rules, pick_node-spares)

  pick-spares : (st : ShareState) → Avoids deletes_pod (pick_node_with_reset k env c st)
  unfolding pick_node_with_reset
  pick-spares st = search (avoids_rules, picked-spares, pick_node-spares)

  module _ (volume pvc_name pvc_ns : String) where
    pod_created-spares :
        (r : Result KubeError Pod)
        → Avoids deletes_pod (pod_created k env c volume pvc_name pvc_ns r)
    unfolding pod_created
    pod_created-spares (ok pod) = search avoids_rules
    pod_created-spares (err (api code m)) = search avoids_rules
    pod_created-spares (err (other m)) = search avoids_rules

    recreate-spares :
        (st : ShareState) → Avoids deletes_pod (recreate k env c volume pvc_name pvc_ns st)
    unfolding recreate
    recreate-spares st =
        search (avoids_rules, pick-spares, save_state-spares, pod_created-spares) depth 10

    detached-spares :
        (st : ShareState) (r : Result AnyError (Unit {0}))
        → Avoids deletes_pod (detached k env c volume pvc_name pvc_ns st r)
    unfolding detached
    detached-spares st (err e) = search avoids_rules
    detached-spares st (ok _) = search (avoids_rules, is_attached-spares, recreate-spares) depth 8

    marked-spares :
        (st : ShareState)
        → Avoids deletes_pod
            (on_missing k env c volume pvc_name pvc_ns (record st { state = "failing_over" }))
    unfolding on_missing mark_missing
    marked-spares st = search (avoids_rules, force_detach-spares, detached-spares) depth 8

    module _ (law : StateCodec c) (store : Store (k.config_maps (share_namespace env)))
        (others : (n : String) (cm : ConfigMap) → Quiets k (λ w. store.find w n ≡ some cm)) where
      -- With a codec that reads back what it writes and a healthy API server, whose ConfigMaps
      -- requests for other objects leave alone: where a share is not marked yet and the eviction of
      -- its workload fails, a round without a pod answers that error; what is loaded afterwards
      -- carries the mark `failing_over`; and a round without a pod that starts from it, at any later
      -- time, deletes no pod at all, so it does not retry the eviction, whatever its requests answer.
      pub eviction_not_retried :
          (st : ShareState) (cm : ConfigMap) (e : AnyError) (s later : Session W)
          → str_eq st.state "failing_over" ≡ false
          → store.find s.world (cm_of st.volume) ≡ some cm
          → (evict_workload_pods k pvc_name pvc_ns
              (save_state k env c (record st { state = "failing_over" }) s).1).0
            ≡ err e
          → let marked : ShareState = record st { state = "failing_over" } in
            ((on_missing k env c volume pvc_name pvc_ns st s).0 ≡ err (kube_err c e))
            × ((load_or_create_state k env c st.volume
                  (on_missing k env c volume pvc_name pvc_ns st s).1).0
                ≡ ok marked)
            × (count deletes_pod (on_missing k env c volume pvc_name pvc_ns marked later).1.calls
                ≡ count deletes_pod later.calls)
      unfolding on_missing mark_missing ◌>>=◌
      eviction_not_retried st cm e s later fresh found failed =
          let marked : ShareState = record st { state = "failing_over" } in
          let (saved, there) = save_state-found k env c law store marked cm s found in
          let kept =
            (evict-Keeps k env c _ (others (cm_of st.volume) _) pvc_name pvc_ns).at
              (save_state k env c marked s).1 there in
          (
            rw (fresh, saved, failed) refl,
            rw (fresh, saved, failed) (load_patched k env c law store marked cm _ kept),
            (marked-spares st).at later,
          )
