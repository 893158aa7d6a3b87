-- ===== src/Controller/Reconcile/Rounds.antt =====
-- Rounds of the controller that do nothing, and rounds that fail part of the way.
use hcloud_csi_rwx.Kube.Avoids.{Avoids, avoids_rules, count}
use hcloud_csi_rwx.Controller.Reconcile.Pods.{creates_pod, save_state-creates_none}
use hcloud_csi_rwx.Prelude.{
  ◌⊎◌, ap, ◌∙◌, List, Bool-cases, ◌==◌, String, ◌≡◌, refl, true, false, none, some, ◌∷◌, arith,
  is_some, inl, inr,
}
use hcloud_csi_rwx.Kube.{
  KubeError, api, other, Result, ConfigMap, ok, err, Client, PersistentVolumeClaim, Pod,
  Result-cases,
}
use hcloud_csi_rwx.Provision.Config.{Env, share_namespace}
use hcloud_csi_rwx.Provision.Names.{volume_name, state_cm_name}
use hcloud_csi_rwx.Controller.State.{
  Codec, ShareState, save_state, picked, pick_node_with_reset, state_data,
}
use hcloud_csi_rwx.Controller.Reconcile.{
  Action, reconcile_body, retire_node, recreate, is_rwx_pvc, requeue, await_change, pod_created,
}
use hcloud_csi_rwx.Kube.Session.{
  send, attempt, map_err, lift, create_object, patch_object, fail, pure, Session, ◌>>=◌, pods,
  config_maps, Object, patch, create,
}
use hcloud_csi_rwx.Provision.Nodes.{AnyError, pick_node}
use hcloud_csi_rwx.Provision.Specs.{share_pod_json}
use hcloud_csi_rwx.Controller.Detach.{bound_volume}

module _ {W : Type 0} (k : Client W) (env : Env) (c : Codec) where
  -- The controller leaves alone a claim that is not of its class and mode, one that is being deleted,
  -- and one that is not bound yet: no request is sent.
  pub reconcile_idle :
      (pvc : PersistentVolumeClaim) (s : Session W)
      → (is_rwx_pvc pvc ≡ false → reconcile_body k env c pvc s ≡ (ok (requeue 300), s))
        × (is_rwx_pvc pvc ≡ true
            → is_some pvc.deletion_timestamp ≡ true
            → reconcile_body k env c pvc s ≡ (ok await_change, s))
        × (is_rwx_pvc pvc ≡ true
            → is_some pvc.deletion_timestamp ≡ false
            → bound_volume pvc ≡ none
            → reconcile_body k env c pvc s ≡ (ok (requeue 30), s))
  unfolding reconcile_body pure
  reconcile_idle pvc s = (λ e. rw e, λ e d. rw (e, d), λ e d b. rw (e, d, b))

  module _ (volume pvc_name pvc_ns : String) (st : ShareState) (s : Session W) where
    pod_created-calls :
        (r : Result KubeError Pod) (t : Session W)
        → (pod_created k env c volume pvc_name pvc_ns r t).1.calls ≡ t.calls
    unfolding pod_created pure fail
    pod_created-calls (ok pod) t = refl
    pod_created-calls (err (api code m)) t = ground (arith, Bool-cases (code == 409))
    pod_created-calls (err (other m)) t = refl

    abbrev written : ShareState → Session W → Result KubeError ConfigMap
    written st' t =
        ((k.config_maps (share_namespace env)).patch (state_cm_name (volume_name st'.volume))
          (record { annotations = none; entries = some (state_data c st') }) t.world).0

    save_state-calls :
        (st' : ShareState) (t : Session W)
        → (save_state k env c st' t).1.calls
          ≡ patch
              (config_maps (share_namespace env))
              (state_cm_name (volume_name st'.volume))
              (record { annotations = none; entries = some (state_data c st') })
            ∷ t.calls
    unfolding save_state ◌>>=◌ patch_object
    save_state-calls st' t = elim (Result-cases (written st' t)) [
      | inl (e, h) ↦ rw h refl
      | inr (a, h) ↦ rw h refl
    ]

    pick_node-creates_none : (avoid : List String) → Avoids creates_pod (pick_node k env avoid)
    unfolding pick_node
    pick_node-creates_none avoid = search avoids_rules depth 9

    picked-creates_none :
        (st' : ShareState) (r : Result AnyError String) → Avoids creates_pod (picked k env c st' r)
    unfolding picked
    picked-creates_none st' (ok n) = search avoids_rules
    picked-creates_none st' (err e) = search (avoids_rules, pick_node-creates_none)

    pick-creates_none : (st' : ShareState) → Avoids creates_pod (pick_node_with_reset k env c st')
    unfolding pick_node_with_reset
    pick-creates_none st' = search (avoids_rules, picked-creates_none, pick_node-creates_none)

    -- What the requests of a step that makes the pod anew are, the latest first: where it creates a
    -- pod at all, the save of the chosen node came right before it, and it succeeded.
    abbrev pub SavedFirst : Result KubeError Action × Session W → Type 0
    SavedFirst r =
        (count creates_pod r.1.calls ≡ count creates_pod s.calls)
        ⊎ ((n : String) × (st' : ShareState) × (pod : Pod) × (s₁ : Session W) × (s₂ : Session W)
            × (pick_node_with_reset k env c (retire_node st) s ≡ (ok (n, st'), s₁))
            × (save_state k env c (record st' { node = some n; state = "starting" }) s₁
                ≡ (ok tt, s₂))
            × (c.pod_from_value (share_pod_json env volume n pvc_name pvc_ns) ≡ ok pod)
            × (count creates_pod s₁.calls ≡ count creates_pod s.calls)
            × (r.1.calls
                ≡ create (pods (share_namespace env)) (Object.pod pod)
                  ∷ patch (config_maps (share_namespace env))
                      (state_cm_name (volume_name st'.volume))
                      (record {
                        annotations = none;
                        entries =
                            some (state_data c (record st' { node = some n; state = "starting" }));
                      })
                  ∷ s₁.calls))

    -- A new pod is created only after its node is saved: whatever the cluster answers, a step that
    -- makes the pod anew creates no pod, or it chose a node, saved it successfully with the state
    -- `starting`, and its last two requests are that save and, after it, the creation of the one pod
    -- of the spec for that node.
    pub recreate_saves_first : SavedFirst (recreate k env c volume pvc_name pvc_ns st s)
    unfolding recreate ◌>>=◌ map_err lift create_object send attempt
    recreate_saves_first =
        let picks = pick_node_with_reset k env c (retire_node st) s in
        let before = (pick-creates_none (retire_node st)).at s in
        elim (Result-cases picks.0) [
          | inl (e, h) ↦ inl (rw h before)
          | inr ((n, st'), h) ↦
              let chosen : ShareState = record st' { node = some n; state = "starting" } in
              let saves = save_state k env c chosen picks.1 in
              let saving = (save_state-creates_none k env c chosen).at picks.1 in
              elim (Result-cases saves.0) [
                | inl (e, g) ↦ inl (rw (h, g) (saving ∙ before))
                | inr (u, g) ↦
                    elim (Result-cases
                      (c.pod_from_value (share_pod_json env volume n pvc_name pvc_ns))) [
                        | inl (e, d) ↦ inl (rw (h, g, d) (saving ∙ before))
                        | inr (pod, d) ↦ inr (
                          n,
                          st',
                          pod,
                          picks.1,
                          saves.1,
                          ap (λ r. (r, picks.1)) h,
                          ap (λ r. (r, saves.1)) g,
                          d,
                          before,
                          rw (h, g, d, pod_created-calls)
                              (rw (save_state-calls chosen picks.1) refl),
                        )
                      ]
              ]
        ]
