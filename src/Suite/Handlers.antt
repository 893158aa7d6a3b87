-- ===== src/Suite/Handlers.antt =====
-- The tests of src/recovery.rs that send a request to a route.
use hcloud_csi_rwx.Prelude.{
  String, ◌≡◌, refl, Bool, true, false, not, ◌&&◌, ◌==◌, none, List, [], ◌∷◌, ◌++◌, map, str_eq,
}
use hcloud_csi_rwx.Map.{lookup, insert, remove, or_insert}
use hcloud_csi_rwx.Kube.{Result, ok}
use hcloud_csi_rwx.Kube.Session.{◌>>=◌, get_object, create_object, patch_object}
use hcloud_csi_rwx.Exec.Fake.{contains_text}
use hcloud_csi_rwx.Recovery.Types.{namespace, ApiError, bad_request, kube_error, cm_name}
use hcloud_csi_rwx.Recovery.Input.{strip_nuls, parse_input}
use hcloud_csi_rwx.Recovery.Handlers.{
  clients_at, with_client, with_revoke_fh, write_clients, create, end_grace, add_client_id,
  remove_client_id, read_client_ids, add_revoke_fh,
}
use hcloud_csi_rwx.Recovery.Router.{
  post_backend, put_host, get_host, put_client, delete_client, put_revoke_fh, Response, json,
  configured_token, require_bearer, dispatch, recovery_routes,
}
use hcloud_csi_rwx.Testing.{FakeApi, new_api, on, ok_route, called, call, first_reply}
use hcloud_csi_rwx.Suite.Disk.{every}
use hcloud_csi_rwx.Suite.Server.{client, on_api, api_after}
use hcloud_csi_rwx.Suite.States.{err_of, first_body}
use hcloud_csi_rwx.Suite.Backends.{
  bytes, vars, codec, send, status_of, cm, posts, patches, body_v1, recorded,
}

abbrev taking : FakeApi
taking = on posts 201 (cm "h1" "V1" "{}") new_api

unfoldable create_makes_a_configmap : Bool
create_makes_a_configmap =
    let r = send post_backend body_v1 taking in
    (status_of r.0 == 200) && contains_text "recovery-backend-h1" (first_body (api_after r) posts)

unfoldable create_tolerates_trailing_nul_from_ganesha : Bool
create_tolerates_trailing_nul_from_ganesha =
    let body = bytes body_v1 ++ 0 ∷ [] in
    let r = recovery_routes client (vars none) codec none post_backend body (on_api taking) in
    status_of r.0 == 200

unfoldable create_requires_hostname_in_body : Bool
create_requires_hostname_in_body =
    status_of (send post_backend "{\"version\":\"V1\"}" new_api).0 == 400

unfoldable create_updates_when_configmap_already_exists : Bool
create_updates_when_configmap_already_exists =
    let f = ok_route patches (cm "h1" "V2" "{}") (err_of posts 409 new_api) in
    let r = send post_backend "{\"hostname\":\"h1\",\"version\":\"V2\"}" f in
    (status_of r.0 == 200) && called (api_after r) patches

unfoldable create_propagates_api_failure : Bool
create_propagates_api_failure =
    status_of (send post_backend body_v1 (err_of posts 500 new_api)).0 == 500

unfoldable end_grace_swaps_the_version : Bool
end_grace_swaps_the_version =
    let r = send (put_host "h1") "{\"version\":\"V2\"}" (recorded "{\"c1\":[]}") in
    let patch = first_body (api_after r) patches in
    every ((status_of r.0 == 200) ∷ contains_text "V2" patch ∷ not (contains_text "V1:" patch) ∷ [])

abbrev only_version : String
only_version = "{\"version\":\"V1\"}"

unfoldable add_client_id_records_the_client : Bool
add_client_id_records_the_client =
    let r = send (put_client "h1" "client-42") only_version (recorded "{}") in
    (status_of r.0 == 200) && contains_text "client-42" (first_body (api_after r) patches)

unfoldable remove_client_id_drops_it : Bool
remove_client_id_drops_it =
    let r = send (delete_client "h1" "c1") "" (recorded "{\"c1\":[],\"c2\":[]}") in
    let patch = first_body (api_after r) patches in
    every ((status_of r.0 == 200) ∷ not (contains_text "c1" patch) ∷ contains_text "c2" patch ∷ [])

abbrev both : List String → Bool
both (a ∷ b ∷ []) = str_eq a "c1" && str_eq b "c2"
both _ = false

abbrev lists_both : Result ApiError Response → Bool
lists_both (ok (json s)) =
    every (str_eq s.hostname "h1" ∷ str_eq s.typ "recoveryBackendStatus" ∷ both s.clients ∷ [])
lists_both _ = false

unfoldable read_client_ids_returns_the_list : Bool
read_client_ids_returns_the_list =
    lists_both (send (get_host "h1") "" (recorded "{\"c1\":[],\"c2\":[]}")).0

unfoldable read_client_ids_reports_missing_configmap : Bool
read_client_ids_reports_missing_configmap = status_of (send (get_host "gone") "" new_api).0 == 404

unfoldable add_revoke_fh_appends_the_handle : Bool
add_revoke_fh_appends_the_handle =
    let r = send (put_revoke_fh "h1" "c1" "fh-abc") only_version (recorded "{\"c1\":[]}") in
    (status_of r.0 == 200) && contains_text "fh-abc" (first_body (api_after r) patches)

unfoldable malformed_body_is_rejected_on_every_writing_route : Bool
malformed_body_is_rejected_on_every_writing_route = every (
    map (λ route. status_of (send route "not json" new_api).0 == 400)
      (post_backend ∷ put_host "h1" ∷ put_client "h1" "c1" ∷ put_revoke_fh "h1" "c1" "fh" ∷ []))

-- The tests pass.
handlers_pass :
    every (
      create_makes_a_configmap ∷ create_requires_hostname_in_body
      ∷ create_updates_when_configmap_already_exists ∷ create_propagates_api_failure
      ∷ end_grace_swaps_the_version ∷ add_client_id_records_the_client ∷ remove_client_id_drops_it
      ∷ read_client_ids_returns_the_list ∷ read_client_ids_reports_missing_configmap
      ∷ add_revoke_fh_appends_the_handle ∷ malformed_body_is_rejected_on_every_writing_route ∷ [])
    ≡ true
unfolding create_makes_a_configmap create_tolerates_trailing_nul_from_ganesha
    create_requires_hostname_in_body create_updates_when_configmap_already_exists
    create_propagates_api_failure end_grace_swaps_the_version add_client_id_records_the_client
    remove_client_id_drops_it read_client_ids_returns_the_list
    read_client_ids_reports_missing_configmap add_revoke_fh_appends_the_handle
    malformed_body_is_rejected_on_every_writing_route recovery_routes configured_token
    require_bearer dispatch create end_grace add_client_id remove_client_id read_client_ids
    add_revoke_fh write_clients clients_at with_client with_revoke_fh parse_input strip_nuls
    bad_request kube_error cm_name namespace lookup insert remove or_insert call first_reply
    contains_text get_object create_object patch_object ◌>>=◌
handlers_pass = refl
