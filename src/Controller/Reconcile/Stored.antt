-- ===== src/Controller/Reconcile/Stored.antt =====
-- What the ConfigMap of a share holds while the controller runs.
pub mod Shares
pub mod Rounds
pub mod Steps
pub mod Reachable
use hcloud_csi_rwx.Prelude.{
  String, ◌≡◌, ◌⊎◌, refl, Bool, true, false, none, some, [], ◌∷◌, Option, and_then, unwrap_or,
  arith, contains, str_eq, ◌||◌, inl, inr,
}
use hcloud_csi_rwx.Map.{lookup, lookup-extend}
use hcloud_csi_rwx.Kube.{Api, ConfigMap, MergePatch, Client, Result, ok, err}
use hcloud_csi_rwx.Kube.Store.{merge}
use hcloud_csi_rwx.Kube.Keeps.{Quiet}
use hcloud_csi_rwx.Provision.Config.{Env, share_namespace}
use hcloud_csi_rwx.Provision.Names.{volume_name, state_cm_name}
use hcloud_csi_rwx.Controller.State.{
  Codec, ShareState, new_state, state_of, state_data, state_cm, reset_prior,
}
use hcloud_csi_rwx.Controller.State.Persistence.{StateCodec}
use hcloud_csi_rwx.Controller.Reconcile.PriorNodes.{HasNoRepeat}

-- The name of the ConfigMap of a volume.
abbrev pub cm_of : String → String
cm_of volume = state_cm_name (volume_name volume)

abbrev pub is_known : String → Bool
is_known s = str_eq s "starting" || str_eq s "running" || str_eq s "failing_over"

-- A state of the share of `volume`: it is saved under the name of that volume, no name stands twice
-- among its prior nodes, its word is one of three, and a share that starts is on no prior node.
pub record IsShare (volume : String) (st : ShareState) : Type 0 where
  pub named : cm_of st.volume ≡ cm_of volume
  pub distinct : HasNoRepeat st.prior_nodes
  pub known : is_known st.state ≡ true
  pub moved :
      (n : String) → st.state ≡ "starting" → st.node ≡ some n → contains st.prior_nodes n ≡ false

module _ (c : Codec) (law : StateCodec c) where
  -- The ConfigMap holds a state of the share as its text.
  pub record HoldsShare (volume : String) (cm : ConfigMap) : Type 0 where
    pub share : ShareState
    pub is_share : IsShare volume share
    pub text : and_then cm.entries (lookup "state.json") ≡ some (law.text share)

  -- Every ConfigMap under the name of a volume holds a state of that volume's share.
  abbrev pub AllShares : {W : Type 0} → (W → String → Option ConfigMap) → W → Type 0
  AllShares find w =
      (volume : String) (cm : ConfigMap) → find w (cm_of volume) ≡ some cm → HoldsShare volume cm

-- No request of the API changes a ConfigMap.
pub record Leaves {W K : Type 0} (find : W → String → Option ConfigMap) (a : Api W K) : Type 0 where
  pub get : (n : String) (w : W) (m : String) → find (a.get n w).1 m ≡ find w m
  pub list : (l : Option String) (w : W) (m : String) → find (a.list l w).1 m ≡ find w m
  pub create : (o : K) (w : W) (m : String) → find (a.create o w).1 m ≡ find w m
  pub delete : (n : String) (w : W) (m : String) → find (a.delete n w).1 m ≡ find w m

-- What the controller relies on of the API server: requests for other objects and look-ups leave
-- the ConfigMaps as they are; a creation or a merge patch, whatever its answer, changes at most the
-- ConfigMap that it names, to what it says; and a ConfigMap that is answered is there.
pub record Server {W : Type 0} (k : Client W) (env : Env) : Type 0 where
  pub find : W → String → Option ConfigMap
  pub pods : (ns : String) → Leaves find (k.pods ns)
  pub claims : (ns : String) → Leaves find (k.claims ns)
  pub services : (ns : String) → Leaves find (k.services ns)
  pub nodes : Leaves find k.nodes
  pub attachments : Leaves find k.attachments
  pub get :
      (n : String) (w : W) (m : String)
      → find ((k.config_maps (share_namespace env)).get n w).1 m ≡ find w m
  pub answered :
      (n : String) (w : W) (cm : ConfigMap)
      → ((k.config_maps (share_namespace env)).get n w).0 ≡ ok cm
      → find w n ≡ some cm
  pub create :
      (n : String) (cm : ConfigMap) (w : W) (m : String)
      → cm.name ≡ some n
      → let after = find ((k.config_maps (share_namespace env)).create cm w).1 m in
        (after ≡ find w m) ⊎ ((m ≡ n) × (after ≡ some cm))
  pub patch :
      (n : String) (p : MergePatch) (w : W) (m : String)
      → let after = find ((k.config_maps (share_namespace env)).patch n p w).1 m in
        (after ≡ find w m) ⊎ ((m ≡ n) × ((old : ConfigMap) × (after ≡ some (merge p old))))

module _ {W : Type 0} (k : Client W) (env : Env) (c : Codec) (law : StateCodec c)
    (server : Server k env) where
  abbrev pub Stored : W → Type 0
  Stored = AllShares c law server.find

  pub Stored-same :
      (w w' : W) → ((m : String) → server.find w' m ≡ server.find w m) → Stored w → Stored w'
  Stored-same w w' same i volume cm h = i volume cm (rw (same (cm_of volume)) at h)

  pub Stored-Quiet : {K : Type 0} (a : Api W K) → Leaves server.find a → Quiet Stored a
  Stored-Quiet a l = record {
    get = λ n w. Stored-same w (a.get n w).1 (l.get n w);
    list = λ o w. Stored-same w (a.list o w).1 (l.list o w);
    create = λ o w. Stored-same w (a.create o w).1 (l.create o w);
    delete = λ n w. Stored-same w (a.delete n w).1 (l.delete n w);
  }

  lookup-state_data : (st : ShareState) → lookup "state.json" (state_data c st) ≡ some (law.text st)
  unfolding state_data lookup
  lookup-state_data st = rw (law.write st) refl

  -- A merge patch with the data of a state leaves a ConfigMap that holds it.
  pub merge-HoldsShare :
      (volume : String) (st : ShareState) (old : ConfigMap)
      → IsShare volume st
      → HoldsShare c law volume
          (merge (record { annotations = none; entries = some (state_data c st) }) old)
  merge-HoldsShare volume st old i = record {
    share = st;
    is_share = i;
    text =
        rw
          (
            lookup-extend "state.json" (state_data c st) (unwrap_or old.entries []),
            lookup-state_data st,
          )
          refl;
  }

  pub state_cm-HoldsShare :
      (volume name : String) (st : ShareState)
      → IsShare volume st
      → HoldsShare c law volume (state_cm k env c name st)
  unfolding state_cm
  state_cm-HoldsShare volume name st i = record {
    share = st;
    is_share = i;
    text = lookup-state_data st;
  }

  -- The state that is read of a ConfigMap that holds one.
  pub state_of-IsShare :
      (volume : String) (cm : ConfigMap)
      → HoldsShare c law volume cm
      → IsShare volume (state_of c volume cm)
  unfolding state_of
  state_of-IsShare volume cm h = rw (h.text, law.read h.share) h.is_share
