-- ===== src/Controller/Reconcile/Stored/Steps.antt =====
-- The steps of a round keep the states of all shares.
use hcloud_csi_rwx.Prelude.{String, ◌≡◌, refl, sym, none, some, inl, inr, ap}
use hcloud_csi_rwx.Kube.{KubeError, api, other, ConfigMap, MergePatch, Client, Result, ok, err}
use hcloud_csi_rwx.Kube.Session.{attempt, get_object, create_object, patch_object, config_maps_in}
use hcloud_csi_rwx.Kube.Store.{merge}
use hcloud_csi_rwx.Kube.Keeps.{
  Keeps, Gives, keeps_rules, Keeps-bind, Keeps-map_err, Keeps-pure, Keeps-attempt, Gives-pure,
  Gives-bind, Gives-if, Gives-fail,
}
use hcloud_csi_rwx.Provision.Config.{Env, share_namespace}
use hcloud_csi_rwx.Provision.Nodes.{AnyError}
use hcloud_csi_rwx.Controller.State.{
  Codec, ShareState, new_state, state_data, state_cm, save_state, create_state, state_created,
  state_read, load_or_create_state, pick_node_with_reset,
}
use hcloud_csi_rwx.Controller.State.Picks.{pick_node_with_reset_lem}
use hcloud_csi_rwx.Controller.State.Persistence.{StateCodec}
use hcloud_csi_rwx.Controller.Reconcile.Stored.{
  cm_of, IsShare, HoldsShare, Server, Stored, Stored-same, merge-HoldsShare, state_cm-HoldsShare,
  state_of-IsShare,
}
use hcloud_csi_rwx.Controller.Reconcile.{retire_node}
use hcloud_csi_rwx.Controller.Reconcile.PriorNodes.{retire_node-HasNoRepeat}
use hcloud_csi_rwx.Controller.Reconcile.Stored.Shares.{
  renamed, new_state-IsShare, retired-kept, reset_prior-distinct, starting, starting-IsShare,
}

module _ {W : Type 0} (k : Client W) (env : Env) (c : Codec) (law : StateCodec c)
    (server : Server k env) where
  abbrev pub I : W → Type 0
  I = Stored k env c law server

  abbrev data_patch : ShareState → MergePatch
  data_patch st = record { annotations = none; entries = some (state_data c st) }

  patch-Stored :
      (volume : String) (st : ShareState) (w : W)
      → IsShare volume st
      → I w
      → I ((k.config_maps (share_namespace env)).patch (cm_of st.volume) (data_patch st) w).1
  patch-Stored volume st w s i volume' cm h =
      elim (server.patch (cm_of st.volume) (data_patch st) w (cm_of volume')) [
        | inl same ↦ i volume' cm (rw same at h)
        | inr (named, (old, after)) ↦
            let written : merge (data_patch st) old ≡ cm = cc (after, h) in
            rw (← written) (
              merge-HoldsShare k env c law server volume' st old
                (renamed volume volume' st s (sym named)))
      ]

  create-Stored :
      (volume : String) (w : W)
      → I w
      → I
          ((k.config_maps (share_namespace env)).create
            (state_cm k env c (cm_of volume) (new_state volume))
            w).1
  unfolding state_cm
  create-Stored volume w i volume' cm h =
      elim (server.create (cm_of volume) (state_cm k env c (cm_of volume) (new_state volume)) w
        (cm_of volume') refl) [
          | inl same ↦ i volume' cm (rw same at h)
          | inr (named, after) ↦
              let written : state_cm k env c (cm_of volume) (new_state volume) ≡ cm =
                cc (after, h) in
              let same : cm_of volume ≡ cm_of volume' = sym named in
              rw (← written) (
                state_cm-HoldsShare k env c law server volume' (cm_of volume) (new_state volume)
                  (renamed volume volume' (new_state volume) (new_state-IsShare volume) same))
        ]

  pub save_state-Keeps :
      (volume : String) (st : ShareState) → IsShare volume st → Keeps I (save_state k env c st)
  unfolding save_state patch_object
  save_state-Keeps volume st s =
      Keeps-bind _ _ (Keeps-map_err _ _ (record { at = λ t i. patch-Stored volume st t.world s i }))
        (λ _. Keeps-pure tt)

  state_created-Keeps :
      (st : ShareState) (r : Result KubeError ConfigMap) → Keeps I (state_created k env c st r)
  unfolding state_created
  state_created-Keeps st (ok _) = Keeps-pure st
  state_created-Keeps st (err (api code m)) = search keeps_rules
  state_created-Keeps st (err (other m)) = search keeps_rules

  create_state-Keeps :
      (volume : String) → Keeps I (create_state k env c (cm_of volume) (new_state volume))
  unfolding create_state create_object
  create_state-Keeps volume =
      Keeps-bind _ _ (Keeps-attempt _ (record { at = λ t i. create-Stored volume t.world i }))
        (state_created-Keeps (new_state volume))

  state_read-Keeps :
      (volume : String) (r : Result KubeError ConfigMap)
      → Keeps I (state_read k env c volume (cm_of volume) r)
  unfolding state_read
  state_read-Keeps volume (ok cm) = search keeps_rules
  state_read-Keeps volume (err (api code m)) = search (keeps_rules, create_state-Keeps)
  state_read-Keeps volume (err (other m)) = search keeps_rules

  get-Keeps : (n : String) → Keeps I (get_object (config_maps_in k (share_namespace env)) n)
  unfolding get_object
  get-Keeps n = record {
    at = λ t i. Stored-same k env c law server t.world _ (server.get n t.world) i;
  }

  pub load-Keeps : (volume : String) → Keeps I (load_or_create_state k env c volume)
  unfolding load_or_create_state
  load-Keeps volume = search (keeps_rules, state_read-Keeps, get-Keeps)

  -- What is read of the ConfigMap of a volume is its share.
  created-Gives :
      (volume : String) (r : Result KubeError ConfigMap)
      → Gives I (IsShare volume) (state_created k env c (new_state volume) r)
  unfolding state_created
  created-Gives volume (ok _) = Gives-pure _ (new_state-IsShare volume)
  created-Gives volume (err (api code m)) =
      Gives-if _ _ _ (Gives-pure _ (new_state-IsShare volume)) (Gives-fail _)
  created-Gives volume (err (other m)) = Gives-fail _

  create_state-Gives :
      (volume : String)
      → Gives I (IsShare volume) (create_state k env c (cm_of volume) (new_state volume))
  unfolding create_state create_object
  create_state-Gives volume =
      Gives-bind (λ _. Unit {0}) _ _ _
        (Keeps-attempt _ (record { at = λ t i. create-Stored volume t.world i }))
        (record { at = λ s a i h. tt }) (λ r _. created-Gives volume r)

  abbrev AnswersShare : String → Result KubeError ConfigMap → Type 0
  AnswersShare volume r = (cm : ConfigMap) → r ≡ ok cm → HoldsShare c law volume cm

  state_read-Gives :
      (volume : String) (r : Result KubeError ConfigMap)
      → AnswersShare volume r
      → Gives I (IsShare volume) (state_read k env c volume (cm_of volume) r)
  unfolding state_read
  state_read-Gives volume (ok cm) h =
      Gives-pure _ (state_of-IsShare k env c law server volume cm (h cm refl))
  state_read-Gives volume (err (api code m)) h =
      Gives-if _ _ _ (create_state-Gives volume) (Gives-fail _)
  state_read-Gives volume (err (other m)) h = Gives-fail _

  get-Gives :
      (volume : String)
      → Gives I (AnswersShare volume) (
          attempt {F = AnyError}
            (get_object (config_maps_in k (share_namespace env)) (cm_of volume)))
  unfolding get_object attempt
  get-Gives volume = record {
    at = λ s r i h cm e. i volume cm (server.answered (cm_of volume) s.world cm (cc (h, e)));
  }

  pub load-Gives :
      (volume : String) → Gives I (IsShare volume) (load_or_create_state k env c volume)
  unfolding load_or_create_state
  load-Gives volume =
      Gives-bind (AnswersShare volume) _ _ _ (Keeps-attempt _ (get-Keeps (cm_of volume)))
        (get-Gives volume) (state_read-Gives volume)

  pub pick-Gives :
      (volume : String) (st : ShareState)
      → IsShare volume st
      → Gives I
          (λ p. IsShare volume (starting p.0 p.1))
          (pick_node_with_reset k env c (retire_node st))
  pick-Gives volume st i = record {
    at = λ s p _ h.
        let (avoided, cases) =
          pick_node_with_reset_lem k env c (retire_node st) p.1 p.0 s
            (pick_node_with_reset k env c (retire_node st) s).1
            (ap (λ r. (r, (pick_node_with_reset k env c (retire_node st) s).1)) h) in
        elim cases [
          | inl same ↦
              starting-IsShare volume p.1 p.0 (rw (same, (retired-kept st).0) i.named)
                (rw same (retire_node-HasNoRepeat st i.distinct)) avoided
          | inr (_, same) ↦
              starting-IsShare volume p.1 p.0 (rw (same, (retired-kept st).0) i.named)
                (rw same (reset_prior-distinct (retire_node st))) avoided
        ];
  }
