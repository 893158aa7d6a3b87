-- ===== src/Controller/State.antt =====
-- The state of a share in src/controller.rs and its persistence in a ConfigMap.
pub mod Persistence
pub mod Picks
use hcloud_csi_rwx.Prelude.{
  String, Option, none, some, List, [], ◌∷◌, and_then, unwrap_or, ◌==◌, if◌then◌else◌, length,
  last?, ltb,
}
use hcloud_csi_rwx.Map.{Map, lookup}
use hcloud_csi_rwx.Json.{Value}
use hcloud_csi_rwx.Kube.{KubeError, api, other, Result, ok, err, ConfigMap, Pod, Service, Client}
use hcloud_csi_rwx.Kube.Session.{
  Try, pure, fail, lift, attempt, map_err, recode, ◌>>=◌, ◌>>◌, Handle, config_maps_in, services_in,
  get_object, create_object, patch_object,
}
use hcloud_csi_rwx.Provision.Config.{Env, share_namespace}
use hcloud_csi_rwx.Provision.Names.{volume_name, state_cm_name}
use hcloud_csi_rwx.Provision.Specs.{service_json}
use hcloud_csi_rwx.Provision.Nodes.{AnyError, kube, message, pick_node}

pub record ShareState : Type 0 where
  pub volume : String
  pub node : Option String
  pub prior_nodes : List String
  pub state : String

-- `ShareState::new`
abbrev pub new_state : String → ShareState
new_state volume = record { volume = volume; node = none; prior_nodes = []; state = "starting" }

-- serde_json, and the text of an error.
pub record Codec : Type 0 where
  pub state_from_str : String → Result String ShareState
  pub state_to_string : ShareState → Result String String
  pub pod_from_value : Value → Result String Pod
  pub service_from_value : Value → Result String Service
  pub to_string : AnyError → String

-- `kube_err`: an anyhow error as a `kube::Error`.
unfoldable pub kube_err : Codec → AnyError → KubeError
kube_err c e = api 500 (c.to_string e)

abbrev or_empty : Result String String → String
or_empty (ok t) = t
or_empty (err e) = ""

abbrev or_new : String → Result String ShareState → ShareState
or_new volume (ok st) = st
or_new volume (err e) = new_state volume

-- The data that a state ConfigMap holds.
unfoldable pub state_data : Codec → ShareState → Map String
state_data c st = ("state.json", or_empty (c.state_to_string st)) ∷ []

-- The state that a ConfigMap holds; what does not parse counts as a new one.
unfoldable pub state_of : Codec → String → ConfigMap → ShareState
state_of c volume cm =
    or_new volume (c.state_from_str (unwrap_or (and_then cm.entries (lookup "state.json")) "{}"))

-- The last of the prior nodes, alone.
abbrev pub reset_prior : ShareState → ShareState
reset_prior st = record st {
  prior_nodes = elim (last? st.prior_nodes) [ none ↦ [] | some n ↦ n ∷ [] ];
}

module _ {W : Type 0} (k : Client W) (env : Env) (c : Codec) where
  unfoldable pub state_cm : String → ShareState → ConfigMap
  state_cm name st = record {
    name = some name;
    namespace = some (share_namespace env);
    annotations = none;
    entries = some (state_data c st);
  }

  abbrev pub state_api : Handle W ConfigMap
  state_api = config_maps_in k (share_namespace env)

  -- The answer to the creation of the state: 409 means that it exists by now.
  unfoldable pub state_created : ShareState → Result KubeError ConfigMap → Try W AnyError ShareState
  state_created st (ok _) = pure st
  state_created st (err (api code m)) = if code == 409 then pure st else fail (kube (api code m))
  state_created st (err (other m)) = fail (kube (other m))

  unfoldable pub create_state : String → ShareState → Try W AnyError ShareState
  unfolding state_created
  create_state cm_name st = do
    r ← attempt (create_object state_api (state_cm cm_name st))
    state_created st r

  unfoldable pub state_read :
      String → String → Result KubeError ConfigMap → Try W AnyError ShareState
  unfolding create_state
  state_read volume cm_name (ok cm) = pure (state_of c volume cm)
  state_read volume cm_name (err (api code m)) =
      if code == 404 then create_state cm_name (new_state volume) else fail (kube (api code m))
  state_read volume cm_name (err (other m)) = fail (kube (other m))

  unfoldable pub load_or_create_state : String → Try W AnyError ShareState
  unfolding state_read
  load_or_create_state volume = do
    let cm_name = state_cm_name (volume_name volume)
    r ← attempt (get_object state_api cm_name)
    state_read volume cm_name r

  -- A merge patch with the whole ConfigMap, of which the data is what can change.
  unfoldable pub save_state : ShareState → Try W AnyError (Unit {0})
  save_state st = do
    let cm_name = state_cm_name (volume_name st.volume)
    map_err kube (
        patch_object state_api cm_name
          (record { annotations = none; entries = some (state_data c st) }))
    pure tt

  unfoldable pub picked : ShareState → Result AnyError String → Try W AnyError (String × ShareState)
  picked st (ok n) = pure (n, st)
  picked st (err e) =
      if ltb 1 (length st.prior_nodes)
      then (do n ← pick_node k env (reset_prior st).prior_nodes; pure (n, reset_prior st))
      else fail e

  -- The node, and the state with its prior nodes.
  unfoldable pub pick_node_with_reset : ShareState → Try W AnyError (String × ShareState)
  unfolding picked
  pick_node_with_reset st = do r ← attempt (pick_node k env st.prior_nodes); picked st r

  unfoldable pub service_created : Result KubeError Service → Try W AnyError (Unit {0})
  service_created (ok _) = pure tt
  service_created (err (api code m)) = if code == 409 then pure tt else fail (kube (api code m))
  service_created (err (other m)) = fail (kube (other m))

  unfoldable pub service_read : String → Result KubeError Service → Try W AnyError (Unit {0})
  unfolding service_created
  service_read volume (ok _) = pure tt
  service_read volume (err _) = do
    svc ← lift (recode message (c.service_from_value (service_json env volume)))
    r ← attempt (create_object (services_in k (share_namespace env)) svc)
    service_created r

  unfoldable pub ensure_service : String → Try W AnyError (Unit {0})
  unfolding service_read
  ensure_service volume = do
    r ← attempt (get_object (services_in k (share_namespace env)) (volume_name volume))
    service_read volume r
