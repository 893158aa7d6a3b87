-- ===== src/Controller/State/Persistence.antt =====
-- The state of a share survives a restart of the controller: what is saved is what is loaded.
use hcloud_csi_rwx.Prelude.{
  unwrap_or, String, ◌≡◌, refl, false, none, some, [], arith, str_eq, str_eq_iff, ◌∙◌, ap,
}
use hcloud_csi_rwx.Map.{lookup, lookup-extend}
use hcloud_csi_rwx.Kube.{Client, ok, ConfigMap}
use hcloud_csi_rwx.Kube.Session.{Session, ◌>>=◌, get_object, patch_object, create_object}
use hcloud_csi_rwx.Kube.Store.{Store, merge}
use hcloud_csi_rwx.Provision.Config.{Env, share_namespace}
use hcloud_csi_rwx.Provision.Names.{volume_name, state_cm_name}
use hcloud_csi_rwx.Controller.State.{
  Codec, ShareState, new_state, state_of, state_data, save_state, load_or_create_state, state_cm,
}

-- What serde_json promises of a state: writing it succeeds, and reading it back gives it again.
pub record StateCodec (c : Codec) : Type 0 where
  pub text : ShareState → String
  pub write : (st : ShareState) → c.state_to_string st ≡ ok (text st)
  pub read : (st : ShareState) → c.state_from_str (text st) ≡ ok st

abbrev pub cm_of : String → String
cm_of volume = state_cm_name (volume_name volume)

module _ {W : Type 0} (k : Client W) (env : Env) (c : Codec) (law : StateCodec c)
    (store : Store (k.config_maps (share_namespace env))) where
  lookup-state_data : (st : ShareState) → lookup "state.json" (state_data c st) ≡ some (law.text st)
  unfolding state_data lookup
  lookup-state_data st = rw (law.write st) refl

  state_of-merge :
      (st : ShareState) (cm : ConfigMap)
      → state_of c st.volume
          (merge (record { annotations = none; entries = some (state_data c st) }) cm)
        ≡ st
  unfolding state_of
  state_of-merge st cm = rw (
    lookup-extend "state.json" (state_data c st) (unwrap_or cm.entries []),
    lookup-state_data st,
    law.read st,
  )

  load_found :
      (volume : String) (cm : ConfigMap) (s : Session W)
      → store.find s.world (cm_of volume) ≡ some cm
      → (load_or_create_state k env c volume s).0 ≡ ok (state_of c volume cm)
  unfolding load_or_create_state ◌>>=◌ get_object
  load_found volume cm s h = rw (store.get_found s.world (cm_of volume) cm h) refl

  state_of-state_cm :
      (st : ShareState) → state_of c st.volume (state_cm k env c (cm_of st.volume) st) ≡ st
  unfolding state_of state_cm
  state_of-state_cm st = rw (lookup-state_data st, law.read st) refl

  named : (st : ShareState) → (state_cm k env c (cm_of st.volume) st).name ≡ some (cm_of st.volume)
  unfolding state_cm
  named st = refl

  load_new :
      (volume : String) (s : Session W)
      → store.find s.world (cm_of volume) ≡ none
      → ((load_or_create_state k env c volume s).0 ≡ ok (new_state volume))
        × (store.find (load_or_create_state k env c volume s).1.world (cm_of volume)
            ≡ some (state_cm k env c (cm_of volume) (new_state volume)))
  unfolding load_or_create_state ◌>>=◌ get_object create_object
  load_new volume s h =
      let (done, after) =
        store.create_new s.world (cm_of volume) (state_cm k env c (cm_of volume) (new_state volume))
          (named (new_state volume)) h in
      rw (store.get_gone s.world (cm_of volume) h, done)
        (refl, ground (arith, after (cm_of volume), str_eq_iff (cm_of volume) (cm_of volume)))

  -- Saving succeeds where the ConfigMap is there, and patches it.
  pub save_state-found :
      (st : ShareState) (cm : ConfigMap) (s : Session W)
      → store.find s.world (cm_of st.volume) ≡ some cm
      → ((save_state k env c st s).0 ≡ ok tt)
        × (store.find (save_state k env c st s).1.world (cm_of st.volume)
            ≡ some (merge (record { annotations = none; entries = some (state_data c st) }) cm))
  unfolding save_state ◌>>=◌ patch_object
  save_state-found st cm s h =
      let (done, after) =
        store.patch_found s.world (cm_of st.volume)
          (record { annotations = none; entries = some (state_data c st) }) cm h in
      (
        rw done refl,
        ground
            (arith, after (cm_of st.volume), str_eq_iff (cm_of st.volume) (cm_of st.volume), done),
      )

  -- What a later world with that ConfigMap loads.
  pub load_patched :
      (st : ShareState) (cm : ConfigMap) (s : Session W)
      → store.find s.world (cm_of st.volume)
        ≡ some (merge (record { annotations = none; entries = some (state_data c st) }) cm)
      → (load_or_create_state k env c st.volume s).0 ≡ ok st
  load_patched st cm s h = load_found st.volume _ s h ∙ ap ok (state_of-merge st cm)

  pub load_saved :
      (st : ShareState) (cm : ConfigMap) (s : Session W)
      → store.find s.world (cm_of st.volume) ≡ some cm
      → (load_or_create_state k env c st.volume (save_state k env c st s).1).0 ≡ ok st
  load_saved st cm s h = load_patched st cm _ (save_state-found st cm s h).1

  -- With a codec that reads back what it writes and a healthy API server: where the ConfigMap of a
  -- share exists, saving its state succeeds, loading that share afterwards gives the state that was
  -- saved, and a ConfigMap of another name has not changed.
  pub load-save :
      (st : ShareState) (cm : ConfigMap) (other : String) (s : Session W)
      → store.find s.world (cm_of st.volume) ≡ some cm
      → str_eq other (cm_of st.volume) ≡ false
      → ((save_state k env c st s).0 ≡ ok tt)
        × ((load_or_create_state k env c st.volume (save_state k env c st s).1).0 ≡ ok st)
        × (store.find (save_state k env c st s).1.world other ≡ store.find s.world other)
  unfolding save_state ◌>>=◌ patch_object
  load-save st cm other s h differs =
      let (done, after) =
        store.patch_found s.world (cm_of st.volume)
          (record { annotations = none; entries = some (state_data c st) }) cm h in
      (rw done refl, load_saved st cm s h, ground (arith, done, after other, differs))

  -- With a codec that reads back what it writes and a healthy API server: loading a share that has
  -- no ConfigMap gives the new state and stores it, so that loading it again gives the same state.
  pub load-load :
      (volume : String) (s : Session W)
      → store.find s.world (cm_of volume) ≡ none
      → ((load_or_create_state k env c volume s).0 ≡ ok (new_state volume))
        × ((load_or_create_state k env c volume (load_or_create_state k env c volume s).1).0
            ≡ ok (new_state volume))
  load-load volume s h =
      let (first, stored) = load_new volume s h in
      (first, load_found volume _ _ stored ∙ ap ok (state_of-state_cm (new_state volume)))
