-- ===== src/Controller/Reconcile/Progress.antt =====
-- A round without a pod makes a new one, where nothing is in the way: `reconcile` of src/controller.rs
-- on a healthy API server.
use hcloud_csi_rwx.Prelude.{String, ◌≡◌, refl, some, List, ◌∷◌, Bool-cases, inl, inr, str_eq}
use hcloud_csi_rwx.Kube.{ok, Client, ConfigMap, Pod, KubeError, Result}
use hcloud_csi_rwx.Kube.Session.{
  Kind, Call, Session, lift, attempt, map_err, ◌>>=◌, get_object, create_object, pods_in, Object,
  recode,
}
use hcloud_csi_rwx.Provision.Config.{Env, share_namespace}
use hcloud_csi_rwx.Provision.Names.{volume_name, state_cm_name}
use hcloud_csi_rwx.Controller.State.{Codec, ShareState, load_or_create_state, state_of, kube_err}
use hcloud_csi_rwx.Controller.Reconcile.{
  recreate, mark_missing, Action, requeue, retire_node, on_missing, reconcile_bound, detached,
  on_answer, pod_created,
}
use hcloud_csi_rwx.Provision.Nodes.{message, choose, occupied_by}
use hcloud_csi_rwx.Provision.Specs.{share_pod_json}
use hcloud_csi_rwx.Kube.Yields.{
  Yields, Ends, Yields-bind, Ends-bind, Yields-map_err, Yields-attempt, Yields-pure,
}
use hcloud_csi_rwx.Controller.Reconcile.Healthy.{
  Healthy, retired-prior, retired-volume, save_state-Yields, evict-Yields, force_detach-Yields,
  is_attached-Yields, ensure_service-Yields, pick-Yields,
}

module _ {W : Type 0} (k : Client W) (env : Env) (c : Codec) (volume saved pvc_ns : String)
    (I : W → Type 0) (h : Healthy k env volume saved pvc_ns I) where
  module _ (pvc_name : String) where
    -- The round asks to be repeated soon, and the creation of the pod was its last request.
    abbrev pub Creates : Pod → Result KubeError Action × Session W → Type 0
    Creates pod r =
        (r.0 ≡ ok (requeue 5))
        × ((before : List Call) × (r.1.calls
              ≡ Call.create (Kind.pods (share_namespace env)) (Object.pod pod) ∷ before))

    create-Creates :
        (n : String) (pod : Pod)
        → c.pod_from_value (share_pod_json env volume n pvc_name pvc_ns) ≡ ok pod
        → Ends I (Creates pod) (do
          made ← map_err (kube_err c) (
              lift
                (recode message (c.pod_from_value (share_pod_json env volume n pvc_name pvc_ns))))
          r ← attempt (create_object (pods_in k (share_namespace env)) made)
          pod_created k env c volume pvc_name pvc_ns r)
    unfolding ◌>>=◌ create_object attempt map_err lift pod_created
    create-Creates n pod decoded = record {
      at = λ s i. rw (decoded, h.creates pod s.world i) (refl, (_, refl));
    }

    recreate-Creates :
        (st : ShareState) (n : String) (pod : Pod)
        → st.volume ≡ saved
        → choose (retire_node st).prior_nodes (occupied_by h.pods) h.nodes ≡ some n
        → c.pod_from_value (share_pod_json env volume n pvc_name pvc_ns) ≡ ok pod
        → Ends I (Creates pod) (recreate k env c volume pvc_name pvc_ns st)
    unfolding recreate
    recreate-Creates st n pod v e decoded =
        Ends-bind _ _
          (Yields-map_err _ _ ((pick-Yields k env c volume saved pvc_ns I h) (retire_node st) n e))
          (λ p chosen. rw chosen (
            Ends-bind _ _
              (Yields-map_err _ _
                ((save_state-Yields k env c volume saved pvc_ns I h) _ (rw (retired-volume st) v)))
              (λ _ _. create-Creates n pod decoded)))

    mark_missing-Yields :
        (st : ShareState)
        → st.volume ≡ saved
        → Yields I
            (λ m. (m.volume ≡ saved) × ((retire_node m).prior_nodes ≡ (retire_node st).prior_nodes))
            (mark_missing k env c volume pvc_name pvc_ns st)
    unfolding mark_missing
    mark_missing-Yields st v = elim (Bool-cases (str_eq st.state "failing_over")) [
      | inl e ↦ rw e (Yields-pure st (v, refl))
      | inr e ↦ rw e (
          Yields-bind _ _
            (Yields-map_err _ _ ((save_state-Yields k env c volume saved pvc_ns I h) _ v))
            (λ _ _.
              Yields-bind _ _
                (Yields-map_err _ _ ((evict-Yields k env c volume saved pvc_ns I h) pvc_name))
                (λ _ _. Yields-pure _ (v, retired-prior st))))
    ]

    on_missing-Creates :
        (st : ShareState) (n : String) (pod : Pod)
        → st.volume ≡ saved
        → choose (retire_node st).prior_nodes (occupied_by h.pods) h.nodes ≡ some n
        → c.pod_from_value (share_pod_json env volume n pvc_name pvc_ns) ≡ ok pod
        → Ends I (Creates pod) (on_missing k env c volume pvc_name pvc_ns st)
    unfolding on_missing detached
    on_missing-Creates st n pod v e decoded = Ends-bind _ _ (mark_missing-Yields st v) (λ marked q.
        Ends-bind _ _ (Yields-attempt _ (force_detach-Yields k env c volume saved pvc_ns I h))
          (λ r t. rw t.1 (
            Ends-bind _ _ (is_attached-Yields k env c volume saved pvc_ns I h)
              (λ b free. rw free (recreate-Creates marked n pod q.0 (rw q.1 e) decoded)))))

    -- On an API server that is healthy in the worlds of `I`, among them the present one (the share's
    -- pod is gone, its backing volume is attached nowhere, its ConfigMap and service are there, and
    -- changes are accepted): where the ConfigMap holds a state of that volume, a node is to be chosen
    -- once the node of that state is retired, and the spec for it decodes, one round creates the pod
    -- of that spec as its last request, and asks to be repeated soon.
    pub reconcile_bound-Creates :
        (cm : ConfigMap) (n : String) (pod : Pod) (s : Session W)
        → I s.world
        → ((k.config_maps (share_namespace env)).get (state_cm_name (volume_name volume)) s.world).0
          ≡ ok cm
        → (state_of c volume cm).volume ≡ saved
        → choose (retire_node (state_of c volume cm)).prior_nodes (occupied_by h.pods) h.nodes
          ≡ some n
        → c.pod_from_value (share_pod_json env volume n pvc_name pvc_ns) ≡ ok pod
        → Creates pod (reconcile_bound k env c volume pvc_name pvc_ns s)
    unfolding reconcile_bound load_or_create_state on_answer ◌>>=◌ get_object
    reconcile_bound-Creates cm n pod s i found v e decoded =
        let kept = h.keeps_state (state_cm_name (volume_name volume)) s.world i in
        let (u, served, q, j) =
          (ensure_service-Yields k env c volume saved pvc_ns I h).at
            (record {
              world =
                  ((k.config_maps (share_namespace env)).get (state_cm_name (volume_name volume))
                    s.world).1;
              calls =
                  Call.get (Kind.config_maps (share_namespace env))
                    (state_cm_name (volume_name volume))
                  ∷ s.calls;
            })
            kept in
        let (gone, there) = h.no_pod _ j in
        rw (found, served, gone)
          ((on_missing-Creates (state_of c volume cm) n pod v e decoded).at _ there)
