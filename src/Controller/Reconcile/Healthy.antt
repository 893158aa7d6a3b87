-- ===== src/Controller/Reconcile/Healthy.antt =====
-- A healthy API server for a share without a pod, and what the steps of a round give on it.
use hcloud_csi_rwx.Prelude.{
  String, ◌≡◌, refl, false, none, some, List, [], ◌∷◌, any, Bool-cases, inl, inr, is_empty, ◌||◌,
  Option-cases,
}
use hcloud_csi_rwx.Kube.{
  api, ok, err, Client, ConfigMap, MergePatch, Pod, Node, Service, PersistentVolumeClaim,
  VolumeAttachment, KubeError,
}
use hcloud_csi_rwx.Kube.Session.{
  Session, pure, attempt, ◌>>=◌, get_object, list_objects, patch_object, delete_object,
}
use hcloud_csi_rwx.Provision.Config.{Env, share_namespace}
use hcloud_csi_rwx.Provision.Names.{volume_name, share_pod_name, state_cm_name, backing_pvc_name}
use hcloud_csi_rwx.Controller.State.{
  Codec, ShareState, save_state, pick_node_with_reset, ensure_service, state_data,
}
use hcloud_csi_rwx.Controller.Detach.{
  bound_volume, attached_to, detach_loop, backing_pv_name, force_detach_backing_pvc,
  is_backing_pvc_attached, detach_from, attached_from,
}
use hcloud_csi_rwx.Controller.Evict.{evict_loop, evict_workload_pods, has_claim}
use hcloud_csi_rwx.Controller.Reconcile.{retire_node}
use hcloud_csi_rwx.Provision.Nodes.{pick_node, choose, occupied_by}
use hcloud_csi_rwx.Kube.Yields.{Yields, Yields-pure}

-- What the API server answers in the worlds of `I`, which look-ups, the patch of the share's
-- ConfigMap and the deletion of workload pods do not leave: the ConfigMap and the service of the
-- share are there, and its pod is not; the backing claim is there, and where it is bound to a volume,
-- no attachment is of that volume; the pods of the shares and the nodes are listed; and a pod can be
-- created.
pub record Healthy {W : Type 0} (k : Client W) (env : Env) (volume saved pvc_ns : String)
    (I : W → Type 0) : Type 0 where
  pub claim : PersistentVolumeClaim
  pub service : Service
  pub pods : List Pod
  pub nodes : List Node
  pub gone : String
  pub keeps_state : (n : String) (w : W) → I w → I ((k.config_maps (share_namespace env)).get n w).1
  pub saves :
      (p : MergePatch) (w : W)
      → I w
      → let r =
          (k.config_maps (share_namespace env)).patch (state_cm_name (volume_name saved)) p w in
        (cm : ConfigMap) × (r.0 ≡ ok cm) × I r.1
  pub reads_service :
      (w : W)
      → I w
      → let r = (k.services (share_namespace env)).get (volume_name volume) w in
        (r.0 ≡ ok service) × I r.1
  pub no_pod :
      (w : W)
      → I w
      → let r = (k.pods (share_namespace env)).get (share_pod_name (volume_name volume)) w in
        (r.0 ≡ err (api 404 gone)) × I r.1
  pub reads_claim :
      (w : W)
      → I w
      → let r = (k.claims (share_namespace env)).get (backing_pvc_name (volume_name volume)) w in
        (r.0 ≡ ok claim) × I r.1
  pub lists_attachments :
      (w : W)
      → I w
      → let r = k.attachments.list none w in
        (l : List VolumeAttachment) × (r.0 ≡ ok l)
        × I r.1
        × ((pv : String) → bound_volume claim ≡ some pv → any (attached_to pv) l ≡ false)
  pub lists_pods :
      (w : W)
      → I w
      → let r = (k.pods (share_namespace env)).list (some "rwx-volume") w in (r.0 ≡ ok pods) × I r.1
  pub lists_nodes : (w : W) → I w → let r = k.nodes.list none w in (r.0 ≡ ok nodes) × I r.1
  pub lists_workload :
      (w : W) → I w → let r = (k.pods pvc_ns).list none w in (l : List Pod) × (r.0 ≡ ok l) × I r.1
  pub evicts : (n : String) (w : W) → I w → I ((k.pods pvc_ns).delete n w).1
  pub creates : (pod : Pod) (w : W) → I w → ((k.pods (share_namespace env)).create pod w).0 ≡ ok pod

pub retired-prior :
    (st : ShareState)
    → (retire_node (record st { state = "failing_over" })).prior_nodes
      ≡ (retire_node st).prior_nodes
unfolding retire_node
retired-prior st = elim (Option-cases st.node) [ inl e ↦ rw e refl | inr (n, e) ↦ rw e refl ]

pub retired-volume : (st : ShareState) → (retire_node st).volume ≡ st.volume
unfolding retire_node
retired-volume st = elim (Option-cases st.node) [ inl e ↦ rw e refl | inr (n, e) ↦ rw e refl ]

abbrev pub Any : {A : Type 0} → A → Type 0
Any a = Unit {0}

module _ {W : Type 0} (k : Client W) (env : Env) (c : Codec) (volume saved pvc_ns : String)
    (I : W → Type 0) (h : Healthy k env volume saved pvc_ns I) where
  pub save_state-Yields :
      (st : ShareState) → st.volume ≡ saved → Yields I Any (save_state k env c st)
  unfolding save_state ◌>>=◌ patch_object
  save_state-Yields st v = record {
    at = λ s i.
        let (cm, done, j) =
          h.saves
            (record {
              annotations = none;
              entries = some (state_data c (record st { volume = saved }));
            })
            s.world i in
        rw (v, done) (tt, refl, tt, j);
  }

  evict_loop-Yields : (n : String) (l : List Pod) → Yields I Any (evict_loop k n pvc_ns l)
  unfolding evict_loop ◌>>=◌ attempt delete_object
  evict_loop-Yields n [] = Yields-pure tt tt
  evict_loop-Yields n (p ∷ l) = elim (Bool-cases (has_claim n p)) [
    | inl e ↦ record { at = λ s i. rw e ((evict_loop-Yields n l).at _ (h.evicts _ s.world i)) }
    | inr e ↦ record { at = λ s i. rw e ((evict_loop-Yields n l).at s i) }
  ]

  pub evict-Yields : (n : String) → Yields I Any (evict_workload_pods k n pvc_ns)
  unfolding evict_workload_pods ◌>>=◌ list_objects
  evict-Yields n = elim (Bool-cases (is_empty n || is_empty pvc_ns)) [
    | inl e ↦ record { at = λ s i. rw e ((Yields-pure {I = I} tt tt).at s i) }
    | inr e ↦ record {
      at = λ s i.
          let (l, listed, j) = h.lists_workload s.world i in
          rw (e, listed) ((evict_loop-Yields n l).at _ j);
    }
  ]

  detach_loop-none :
      (pv : String) (l : List VolumeAttachment) (s : Session W)
      → any (attached_to pv) l ≡ false
      → detach_loop k env pv l s ≡ (ok tt, s)
  unfolding detach_loop pure
  detach_loop-none pv [] s e = refl
  detach_loop-none pv (a ∷ l) s e = elim (Bool-cases (attached_to pv a)) [
    | inl f ↦ cc (rw f at e)
    | inr f ↦ rw f (detach_loop-none pv l s (rw f at e))
  ]

  pub force_detach-Yields : Yields I Any (force_detach_backing_pvc k env (volume_name volume))
  unfolding force_detach_backing_pvc backing_pv_name detach_from ◌>>=◌ get_object list_objects
  force_detach-Yields = record {
    at = λ s i.
        let (read, j) = h.reads_claim s.world i in
        let (l, listed, m, free) = h.lists_attachments _ j in
        elim (Option-cases (bound_volume h.claim)) [
          | inl e ↦ rw (read, e) (tt, refl, tt, j)
          | inr (pv, e) ↦
              rw (read, e, listed, detach_loop-none pv l _ (free pv e)) (tt, refl, tt, m)
        ];
  }

  pub is_attached-Yields :
      Yields I (λ b. b ≡ false) (is_backing_pvc_attached k env {E = KubeError} (volume_name volume))
  unfolding is_backing_pvc_attached backing_pv_name attached_from ◌>>=◌ get_object list_objects
  is_attached-Yields = record {
    at = λ s i.
        let (read, j) = h.reads_claim s.world i in
        let (l, listed, m, free) = h.lists_attachments _ j in
        elim (Option-cases (bound_volume h.claim)) [
          | inl e ↦ rw (read, e) (false, refl, refl, j)
          | inr (pv, e) ↦ rw (read, e, listed, free pv e) (false, refl, refl, m)
        ];
  }

  pub ensure_service-Yields : Yields I Any (ensure_service k env c volume)
  unfolding ensure_service ◌>>=◌ get_object
  ensure_service-Yields = record {
    at = λ s i. let (read, j) = h.reads_service s.world i in rw read (tt, refl, tt, j);
  }

  pub pick-Yields :
      (st : ShareState) (n : String)
      → choose st.prior_nodes (occupied_by h.pods) h.nodes ≡ some n
      → Yields I (λ p. p ≡ (n, st)) (pick_node_with_reset k env c st)
  unfolding pick_node_with_reset pick_node ◌>>=◌ list_objects
  pick-Yields st n e = record {
    at = λ s i.
        let (pods, j) = h.lists_pods s.world i in
        let (nodes, m) = h.lists_nodes _ j in rw (pods, nodes, e) ((n, st), refl, refl, m);
  }
