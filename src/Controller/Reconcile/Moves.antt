-- ===== src/Controller/Reconcile/Moves.antt =====
-- A failover takes a share to another node.
use hcloud_csi_rwx.Kube.{Pod, KubeError, Result}
use hcloud_csi_rwx.Kube.Session.{
  Try, Call, map_err, attempt, pure, delete_object, pods_in, ◌>>=◌, ◌>>◌, create, pods, Object,
}
use hcloud_csi_rwx.Kube.Keeps.{Keeps, keeps_rules}
use hcloud_csi_rwx.Kube.Avoids.{count}
use hcloud_csi_rwx.Provision.Names.{share_pod_name}
use hcloud_csi_rwx.Provision.Specs.{share_pod_json}
use hcloud_csi_rwx.Controller.State.{kube_err}
use hcloud_csi_rwx.Controller.State.Persistence.{cm_of, save_state-found, load_patched}
use hcloud_csi_rwx.Controller.Detach.{force_detach_backing_pvc}
use hcloud_csi_rwx.Controller.Evict.{evict_workload_pods}
use hcloud_csi_rwx.Controller.Reconcile.{Action, requeue, start_failover, recreate}
use hcloud_csi_rwx.Controller.Reconcile.Pods.{creates_pod}
use hcloud_csi_rwx.Controller.Reconcile.Rounds.{recreate_saves_first}
use hcloud_csi_rwx.Controller.Reconcile.Requests.{Quiets, force_detach-Keeps, evict-Keeps}
use hcloud_csi_rwx.Prelude.{
  ◌⊎◌, String, ◌≡◌, ◌≢◌, refl, true, false, none, some, List, [], ◌∷◌, ◌++◌, arith, contains, last?,
  str_eq_iff, inl, inr,
}
use hcloud_csi_rwx.Kube.{Client, ok, ConfigMap}
use hcloud_csi_rwx.Kube.Session.{Session}
use hcloud_csi_rwx.Kube.Store.{Store}
use hcloud_csi_rwx.Provision.Config.{Env, share_namespace}
use hcloud_csi_rwx.Provision.Names.{volume_name}
use hcloud_csi_rwx.Controller.State.{
  Codec, ShareState, load_or_create_state, save_state, pick_node_with_reset, reset_prior,
}
use hcloud_csi_rwx.Controller.State.Picks.{pick_node_with_reset_lem}
use hcloud_csi_rwx.Controller.State.Persistence.{StateCodec}
use hcloud_csi_rwx.Controller.Reconcile.{retire_node}

last?-append : (xs : List String) (a : String) → last? (xs ++ a ∷ []) ≡ some a
last?-append [] a = refl
last?-append (x ∷ []) a = refl
last?-append (x ∷ y ∷ ys) a = last?-append (y ∷ ys) a

last?-contains : (xs : List String) (a : String) → last? xs ≡ some a → contains xs a ≡ true
last?-contains [] a h = cc h
last?-contains (x ∷ []) a h = let same : x ≡ a = cc h in ground (arith, str_eq_iff x a, same)
last?-contains (x ∷ y ∷ ys) a h = ground (arith, last?-contains (y ∷ ys) a h)

retired_again : (st : ShareState) → st.node ≡ none → retire_node st ≡ st
unfolding retire_node
retired_again st e = rw e refl

reset_prior-last :
    (st : ShareState) (a : String)
    → last? st.prior_nodes ≡ some a
    → contains (reset_prior st).prior_nodes a ≡ true
reset_prior-last st a l = rw (contains, l) (ground (arith, str_eq_iff a a))

-- The state of a share of `volume` that has left the node `a` for good.
abbrev pub left : ShareState → String → ShareState
left st a = record {
  volume = st.volume;
  node = none;
  prior_nodes = st.prior_nodes ++ a ∷ [];
  state = "failing_over";
}

retired-left :
    (st : ShareState) (a : String)
    → st.node ≡ some a
    → contains st.prior_nodes a ≡ false
    → record (retire_node st) { state = "failing_over" } ≡ left st a
unfolding retire_node
retired-left st a e f = rw (e, f) refl

module _ {W : Type 0} (k : Client W) (env : Env) (c : Codec) where
  pick-elsewhere :
      (st st' : ShareState) (a n : String) (s s' : Session W)
      → last? st.prior_nodes ≡ some a
      → pick_node_with_reset k env c st s ≡ (ok (n, st'), s')
      → n ≢ a
  pick-elsewhere st st' a n s s' l h same =
      let (avoided, cases) = pick_node_with_reset_lem k env c st st' n s s' h in
      elim cases [
        | inl e ↦ let there = last?-contains st'.prior_nodes a (rw e l) in cc (avoided, there, same)
        | inr (many, e) ↦
            let there : contains st'.prior_nodes a ≡ true = rw e (reset_prior-last st a l) in
            cc (avoided, there, same)
      ]

  -- No pod is created, or the last request creates the one pod of the spec for a node other than `a`.
  abbrev pub MadeElsewhere :
      String → String → String → String → Session W → Result KubeError Action × Session W → Type 0
  MadeElsewhere volume pvc_name pvc_ns a later r =
      (count creates_pod r.1.calls ≡ count creates_pod later.calls)
      ⊎ ((n : String) × (pod : Pod) × (before : List Call) × (n ≢ a)
          × (c.pod_from_value (share_pod_json env volume n pvc_name pvc_ns) ≡ ok pod)
          × (r.1.calls ≡ create (pods (share_namespace env)) (Object.pod pod) ∷ before)
          × (count creates_pod before ≡ count creates_pod later.calls))

  module _ (law : StateCodec c) (store : Store (k.config_maps (share_namespace env)))
      (others : (n : String) (cm : ConfigMap) → Quiets k (λ w. store.find w n ≡ some cm))
      (volume pvc_name pvc_ns : String) where
    -- What `start_failover` does after it has saved the state.
    abbrev release : Try W KubeError Action
    release = do
      map_err (kube_err c) (force_detach_backing_pvc k env (volume_name volume))
      map_err (kube_err c) (evict_workload_pods k pvc_name pvc_ns)
      attempt
          (delete_object (pods_in k (share_namespace env)) (share_pod_name (volume_name volume)))
      pure (requeue 3)

    start_failover-release :
        (st : ShareState) (s : Session W)
        → (save_state k env c (record (retire_node st) { state = "failing_over" }) s).0 ≡ ok tt
        → start_failover k env c volume pvc_name pvc_ns st s
          ≡ release (save_state k env c (record (retire_node st) { state = "failing_over" }) s).1
    unfolding start_failover ◌>>=◌ map_err
    start_failover-release st s h = rw h refl

    release-Keeps : (n : String) (cm : ConfigMap) → Keeps (λ w. store.find w n ≡ some cm) release
    release-Keeps n cm =
        search
          (
            keeps_rules,
            ((others n cm).pods),
            (force_detach-Keeps k env c (λ w. store.find w n ≡ some cm) (others n cm)),
            (evict-Keeps k env c (λ w. store.find w n ≡ some cm) (others n cm)),
          )
          depth 9

    start_failover-load :
        (st : ShareState) (cm : ConfigMap) (a : String) (s : Session W)
        → st.node ≡ some a
        → contains st.prior_nodes a ≡ false
        → store.find s.world (cm_of st.volume) ≡ some cm
        → (load_or_create_state k env c st.volume
            (start_failover k env c volume pvc_name pvc_ns st s).1).0
          ≡ ok (left st a)
    start_failover-load st cm a s e f found =
        let saved : ShareState = record (retire_node st) { state = "failing_over" } in
        let same : saved ≡ left st a = retired-left st a e f in
        let (done, there) = save_state-found k env c law store (left st a) cm s found in
        let kept =
          (release-Keeps (cm_of st.volume) _).at (save_state k env c (left st a) s).1 there in
        rw (start_failover-release st s (rw same done), same)
          (load_patched k env c law store (left st a) cm _ kept)

    -- With a codec that reads back what it writes and a healthy API server, whose ConfigMaps requests
    -- for other objects leave alone: a share that stands on `a`, which is none of its prior nodes,
    -- fails over, whatever the requests of the failover answer; what is loaded afterwards is the state
    -- `failing_over` without a node and with `a` as the last of the prior nodes; and when the pod is
    -- made anew from that state, at any later time, either no pod is created, or the last request
    -- creates the one pod of the spec for a node other than `a`.
    pub failover-moves :
        (st : ShareState) (cm : ConfigMap) (a : String) (s later : Session W)
        → st.node ≡ some a
        → contains st.prior_nodes a ≡ false
        → store.find s.world (cm_of st.volume) ≡ some cm
        → ((load_or_create_state k env c st.volume
              (start_failover k env c volume pvc_name pvc_ns st s).1).0
            ≡ ok (left st a))
          × MadeElsewhere volume pvc_name pvc_ns a later
              (recreate k env c volume pvc_name pvc_ns (left st a) later)
    failover-moves st cm a s later e f found = (
      start_failover-load st cm a s e f found,
      elim (recreate_saves_first k env c volume pvc_name pvc_ns (left st a) later) [
        | inl none_made ↦ inl none_made
        | inr (n, st', pod, s₁, s₂, picked, saved, decoded, quiet, calls) ↦
            let last : last? (retire_node (left st a)).prior_nodes ≡ some a =
              rw (retired_again (left st a) refl) (last?-append st.prior_nodes a) in
            inr (
              n,
              pod,
              _,
              pick-elsewhere (retire_node (left st a)) st' a n later s₁ last picked,
              decoded,
              calls,
              quiet,
            )
      ],
    )
