-- ===== src/Suite/Routing.antt =====
-- The tests of src/testing.rs, and those of src/api.rs.
use hcloud_csi_rwx.Prelude.{
  ℕ, String, ◌≡◌, refl, Bool, true, false, not, ◌&&◌, ◌==◌, Option, none, some, List, [], ◌∷◌,
  length, and_then, is_some,
}
use hcloud_csi_rwx.Json.{Value, value_at, item_at}
use hcloud_csi_rwx.Kube.{KubeError, Result, ok, err, api, other}
use hcloud_csi_rwx.Exec.Fake.{contains_text}
use hcloud_csi_rwx.Share.Api.{ShareState, new_state, Response, text, json, app}
use hcloud_csi_rwx.Testing.{new_api, ok_route, called, count, default_response, call, first_reply}
use hcloud_csi_rwx.Testing.Fixtures.{
  node_value, node_list, pod_value, pod_list, empty_list, pvc, state_cm_value, service_value,
  volume_attachment, va_list,
}
use hcloud_csi_rwx.Suite.Disk.{is_err, ok_where, is_text, every}
use hcloud_csi_rwx.Suite.Server.{client, text_at, list_at}
use hcloud_csi_rwx.Suite.States.{err_of}

unfoldable fake_answers_list_and_records_request : Bool
fake_answers_list_and_records_request =
    let f = ok_route "GET /api/v1/nodes" (node_list (("n1", true) ∷ [])) new_api in
    let (nodes, after) = client.nodes.list none f in
    every (
      ok_where (λ l. length l == 1) nodes
      ∷ called after "GET /api/v1/nodes"
      ∷ (count after "GET /api/v1/nodes" == 1)
      ∷ [])

abbrev is_not_found : {A : Type 0} → Result KubeError A → Bool
is_not_found (ok a) = false
is_not_found (err (api code m)) = code == 404
is_not_found (err (other m)) = false

unfoldable fake_returns_scripted_errors : Bool
fake_returns_scripted_errors =
    is_not_found (client.nodes.get "missing" (err_of "GET /api/v1/nodes/missing" 404 new_api)).0

unfoldable unmatched_requests_get_404_by_default : Bool
unmatched_requests_get_404_by_default =
    let (r, after) = client.nodes.get "whatever" new_api in
    is_err r && called after "GET /api/v1/nodes/whatever"

unfoldable fallback_can_be_overridden : Bool
fallback_can_be_overridden =
    let f = default_response 200 (node_value "n9" true) new_api in
    ok_where (λ n. is_text "n9" n.name) (client.nodes.get "anything" f).0

abbrev condition : Value → Option String
condition node =
    and_then (and_then (value_at ("status" ∷ "conditions" ∷ []) node) (item_at 0))
      (text_at ("status" ∷ []))

abbrev has_items : ℕ → Value → Bool
has_items n v = holds (list_at ("items" ∷ []) v)
  where
    holds : Option (List Value) → Bool
    holds none = false
    holds (some l) = length l == n

abbrev claim : Option String → Value
claim = pvc "c" "default" "sc" ("ReadWriteMany" ∷ [])

abbrev va : Value
va = volume_attachment "va" "pv1"

unfoldable builders_produce_expected_shapes : Bool
builders_produce_expected_shapes = every (
    is_text "True" (condition (node_value "n" true))
    ∷ is_text "False" (condition (node_value "n" false))
    ∷ has_items 2 (node_list (("a", true) ∷ ("b", false) ∷ []))
    ∷ is_text "Running" (text_at ("status" ∷ "phase" ∷ []) (pod_value "p" "n" "Running"))
    ∷ has_items 0 (pod_list [])
    ∷ is_text "PodList" (text_at ("kind" ∷ []) (empty_list "PodList"))
    ∷ is_text "pv1" (text_at ("spec" ∷ "volumeName" ∷ []) (claim (some "pv1")))
    ∷ not (is_some (text_at ("spec" ∷ "volumeName" ∷ []) (claim none)))
    ∷ is_text "{}" (text_at ("data" ∷ "state.json" ∷ []) (state_cm_value "s" "{}"))
    ∷ is_text "10.43.0.1" (text_at ("spec" ∷ "clusterIP" ∷ []) (service_value "s" "10.43.0.1"))
    ∷ is_text "pv1" (text_at ("spec" ∷ "source" ∷ "persistentVolumeName" ∷ []) va)
    ∷ has_items 1 (va_list (va ∷ []))
    ∷ [])

-- The status of an answer, and the state that it carries.
abbrev status_of : Response → ℕ
status_of (text code t) = code
status_of (json code s) = code

abbrev carries : (ShareState → Bool) → Response → Bool
carries p (text code t) = false
carries p (json code s) = p s

unfoldable healthz_flips_with_readiness : Bool
healthz_flips_with_readiness =
    let st = new_state "vol" in
    (status_of (app st "/healthz") == 503)
    && (status_of (app (record st { ready = true }) "/healthz") == 200)

unfoldable endpoint_is_unavailable_until_ready : Bool
endpoint_is_unavailable_until_ready =
    let st = new_state "vol" in
    let up = record st { ready = true; endpoint = some "10.0.0.1:/vol" } in
    every (
      (status_of (app st "/endpoint") == 503)
      ∷ (status_of (app up "/endpoint") == 200)
      ∷ carries (λ s. is_text "10.0.0.1:/vol" s.endpoint && s.ready) (app up "/endpoint")
      ∷ [])

abbrev failed : ShareState → Bool
failed s = is_text "my-pvc" (some s.volume) && is_text "boom" s.error && not s.ready

unfoldable state_endpoint_always_answers : Bool
state_endpoint_always_answers =
    let st = record (new_state "my-pvc") { error = some "boom" } in
    (status_of (app st "/state") == 200) && carries failed (app st "/state")

unfoldable fresh_state_has_sane_defaults : Bool
fresh_state_has_sane_defaults =
    let s = new_state "v" in
    every (
      not s.ready
      ∷ not (is_some s.endpoint)
      ∷ not (is_some s.error)
      ∷ is_text "v" (some s.volume)
      ∷ [])

-- The tests pass.
routing_passes :
    every (
      fake_answers_list_and_records_request ∷ fake_returns_scripted_errors
      ∷ unmatched_requests_get_404_by_default ∷ fallback_can_be_overridden
      ∷ builders_produce_expected_shapes ∷ healthz_flips_with_readiness
      ∷ endpoint_is_unavailable_until_ready ∷ fresh_state_has_sane_defaults ∷ [])
    ≡ true
unfolding fake_answers_list_and_records_request fake_returns_scripted_errors
    unmatched_requests_get_404_by_default fallback_can_be_overridden
    builders_produce_expected_shapes healthz_flips_with_readiness
    endpoint_is_unavailable_until_ready fresh_state_has_sane_defaults state_endpoint_always_answers
    app node_value node_list pod_value pod_list empty_list pvc state_cm_value service_value
    volume_attachment va_list call first_reply contains_text
routing_passes = refl
