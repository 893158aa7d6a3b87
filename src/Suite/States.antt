-- ===== src/Suite/States.antt =====
-- The tests of src/controller.rs on the state of a share, its service and its backing volume.
use Prim.Native.Char.{code}
use Prim.Native.String as S
use hcloud_csi_rwx.Prelude.{
  ℕ, String, ◌≡◌, refl, Bool, true, false, ◌&&◌, ◌==◌, Option, none, some, List, [], ◌∷◌, str_eq,
  head?, unwrap_or, and_then, format, if◌then◌else◌,
}
use hcloud_csi_rwx.Map.{lookup}
use hcloud_csi_rwx.Kube.{Result, ok, err}
use hcloud_csi_rwx.Kube.Session.{◌>>=◌, get_object, list_objects, create_object, patch_object}
use hcloud_csi_rwx.Exec.Fake.{contains_text, starts_with}
use hcloud_csi_rwx.Provision.Config.{env_or, share_namespace}
use hcloud_csi_rwx.Provision.Names.{volume_name, state_cm_name}
use hcloud_csi_rwx.Provision.Nodes.{ready, occupied_by, suitable, choose, pick_node}
use hcloud_csi_rwx.Controller.State.{
  ShareState, new_state, Codec, state_data, state_of, state_cm, state_created, create_state,
  state_read, load_or_create_state, save_state, picked, pick_node_with_reset,
}
use hcloud_csi_rwx.Testing.{FakeApi, new_api, ok_route, err_route, bodies, call, first_reply}
use hcloud_csi_rwx.Testing.Fixtures.{node_value, node_list, empty_list, state_cm_value}
use hcloud_csi_rwx.Suite.Disk.{is_ok, is_err, ok_where, is_text, every}
use hcloud_csi_rwx.Suite.Server.{
  client, env, on_api, api_after, any_to_string, pod_of, service_of, reason,
}

-- A state as serde writes it, and the read of one by its keys.
abbrev state_text : ShareState → String
state_text st = format (
    "{\"volume\":\""
    ∷ st.volume
    ∷ "\",\"node\":\""
    ∷ unwrap_or st.node ""
    ∷ "\",\"prior_nodes\":["
    ∷ texts st.prior_nodes
    ∷ "],\"state\":\""
    ∷ st.state
    ∷ "\"}"
    ∷ [])
  where
    texts : List String → String
    texts [] = ""
    texts (t ∷ ts) = format ("\"" ∷ t ∷ "\"," ∷ texts ts ∷ [])

abbrev until_quote : String → String
until_quote S.[] = ""
until_quote (S.◌∷◌ c s) = let rest = until_quote s in if code c == b'"' then "" else S.◌∷◌ c rest

-- What is left of a text behind the first place where another stands.
abbrev behind : String → String → Option String
behind key S.[] = none
behind key (S.◌∷◌ c s) =
    let later = behind key s in
    if starts_with key (S.◌∷◌ c s) then some (dropped key (S.◌∷◌ c s)) else later
  where
    dropped : String → String → String
    dropped S.[] t = t
    dropped (S.◌∷◌ k ks) S.[] = ""
    dropped (S.◌∷◌ k ks) (S.◌∷◌ d t) = dropped ks t

abbrev pub value_of : String → String → Option String
value_of key text = elim (behind (format ("\"" ∷ key ∷ "\":\"" ∷ [])) text) [
  | none ↦ none
  | some rest ↦ some (until_quote rest)
]

-- The volume has to be there.
abbrev state_from : String → Option String → Result String ShareState
state_from text none = err "missing field `volume`"
state_from text (some volume) = ok (record {
  volume = volume;
  node = value_of "node" text;
  prior_nodes = [];
  state = unwrap_or (value_of "state" text) "";
})

abbrev pub codec : Codec
codec = record {
  state_from_str = λ text. state_from text (value_of "volume" text);
  state_to_string = λ st. ok (state_text st);
  pod_from_value = λ v. ok (pod_of v);
  service_from_value = λ v. ok (service_of v);
  to_string = any_to_string;
}

abbrev pub err_of : String → ℕ → FakeApi → FakeApi
err_of = err_route reason

abbrev tried : List String → ShareState
tried nodes = record (new_state "pvc-1") { prior_nodes = nodes; state = "" }

abbrev two_nodes : List (String × Bool)
two_nodes = ("n1", true) ∷ ("n2", true) ∷ []

abbrev free_nodes : List (String × Bool) → FakeApi
free_nodes nodes =
    ok_route "GET /api/v1/nodes" (node_list nodes)
      (ok_route "GET /api/v1/namespaces/hcloud-csi-rwx/pods?" (empty_list "PodList") new_api)

abbrev only : String → List String → Bool
only t (s ∷ []) = str_eq s t
only t _ = false

unfoldable prior_nodes_reset_when_every_node_was_tried : Bool
prior_nodes_reset_when_every_node_was_tried =
    let r =
      (pick_node_with_reset client env codec (tried ("n1" ∷ "n2" ∷ []))
        (on_api (free_nodes two_nodes))).0 in
    ok_where (λ p. str_eq p.0 "n1" && only "n2" p.1.prior_nodes) r

unfoldable single_prior_node_is_not_reset : Bool
single_prior_node_is_not_reset =
    is_err
      (pick_node_with_reset client env codec (tried ("n1" ∷ []))
        (on_api (free_nodes (("n1", true) ∷ [])))).0

abbrev without_state : FakeApi
without_state = err_of "GET /api/v1/namespaces/hcloud-csi-rwx/configmaps/state-pvc-1" 404 new_api

abbrev creation : String
creation = "POST /api/v1/namespaces/hcloud-csi-rwx/configmaps"

abbrev loaded : FakeApi → Result String ShareState
loaded f = elim (load_or_create_state client env codec "pvc-1" (on_api f)).0 [
  | ok st ↦ ok st
  | err e ↦ err (any_to_string e)
]

unfoldable state_is_created_when_absent_and_survives_a_race : Bool
state_is_created_when_absent_and_survives_a_race =
    let created = ok_route creation (state_cm_value "state-pvc-1" "{}") without_state in
    ok_where (λ st. str_eq st.volume "pvc-1" && str_eq st.state "starting") (loaded created)
    && is_ok (loaded (err_of creation 409 without_state))

abbrev with_state : String → FakeApi
with_state text =
    ok_route "GET /api/v1/namespaces/hcloud-csi-rwx/configmaps/state-pvc-1"
      (state_cm_value "state-pvc-1" text) new_api

unfoldable corrupt_state_falls_back_to_a_fresh_one : Bool
corrupt_state_falls_back_to_a_fresh_one =
    ok_where (λ st. str_eq st.state "starting") (loaded (with_state "not json"))

unfoldable state_load_propagates_unexpected_errors : Bool
state_load_propagates_unexpected_errors =
    is_err
      (loaded (err_of "GET /api/v1/namespaces/hcloud-csi-rwx/configmaps/state-pvc-1" 500 new_api))

abbrev pub first_body : FakeApi → String → String
first_body f needle = unwrap_or (head? (bodies f needle)) ""

abbrev saved_route : String
saved_route = "PATCH /api/v1/namespaces/hcloud-csi-rwx/configmaps/state-pvc-1"

unfoldable save_state_writes_the_configmap : Bool
save_state_writes_the_configmap =
    let f = ok_route saved_route (state_cm_value "state-pvc-1" "{}") new_api in
    let st = record (new_state "pvc-1") { state = "running" } in
    let r = save_state client env codec st (on_api f) in
    is_ok r.0
    && contains_text "running"
        (first_body (api_after r) "PATCH /api/v1/namespaces/hcloud-csi-rwx/configmaps")

unfoldable state_configmap_is_namespaced_and_named : Bool
state_configmap_is_namespaced_and_named =
    let cm = state_cm client env codec "state-pvc-1" (tried []) in
    every (
      is_text "state-pvc-1" cm.name
      ∷ is_text "hcloud-csi-rwx" cm.namespace
      ∷ contains_text "pvc-1" (unwrap_or (and_then cm.entries (lookup "state.json")) "")
      ∷ [])

-- The tests of the state pass.
states_pass :
    every (
      prior_nodes_reset_when_every_node_was_tried ∷ single_prior_node_is_not_reset
      ∷ state_is_created_when_absent_and_survives_a_race ∷ corrupt_state_falls_back_to_a_fresh_one
      ∷ state_load_propagates_unexpected_errors ∷ save_state_writes_the_configmap
      ∷ state_configmap_is_namespaced_and_named ∷ [])
    ≡ true
unfolding prior_nodes_reset_when_every_node_was_tried single_prior_node_is_not_reset
    state_is_created_when_absent_and_survives_a_race corrupt_state_falls_back_to_a_fresh_one
    state_load_propagates_unexpected_errors save_state_writes_the_configmap
    state_configmap_is_namespaced_and_named pick_node_with_reset picked pick_node choose suitable
    occupied_by ready node_value node_list empty_list state_cm_value load_or_create_state state_read
    create_state state_created state_cm state_data state_of save_state state_cm_name volume_name
    share_namespace env_or call first_reply contains_text lookup get_object list_objects
    create_object patch_object ◌>>=◌
states_pass = refl
