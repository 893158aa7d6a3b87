-- ===== src/Suite/Drivers.antt =====
-- The tests of src/csi.rs on the other procedures of the driver.
use hcloud_csi_rwx.Prelude.{
  ℕ, String, ◌≡◌, refl, Bool, true, false, ◌&&◌, ◌==◌, List, [], ◌∷◌, map, length, str_eq,
}
use hcloud_csi_rwx.Prelude.Decimal.{show_ℕ}
use hcloud_csi_rwx.Json.{Value, str, object}
use hcloud_csi_rwx.Kube.{Result, ok, err}
use hcloud_csi_rwx.Kube.Session.{recode, ◌>>=◌, get_object}
use hcloud_csi_rwx.Exec.Fake.{contains_text}
use hcloud_csi_rwx.Provision.Config.{driver_name, env_or, share_namespace}
use hcloud_csi_rwx.Provision.Names.{volume_name}
use hcloud_csi_rwx.Csi.Types.{Status, unavailable, unimplemented, Host, not_run}
use hcloud_csi_rwx.Csi.Mounts.{
  resolve_current_endpoint, run_command, node_publish_volume, node_unpublish_volume,
}
use hcloud_csi_rwx.Csi.Service.{
  Answer, Procedure, identity_call, controller_call, node_call, plugin_info, plugin_capabilities,
  ready, volumes, controller_capabilities, node_capabilities, node_info, package_version,
  get_plugin_info, get_plugin_capabilities, probe, node_publish_volume_of, node_unpublish_volume_of,
  controller_publish_volume, controller_unpublish_volume, validate_volume_capabilities,
  list_volumes, get_capacity, controller_get_capabilities, create_snapshot, delete_snapshot,
  list_snapshots, get_snapshot, controller_expand_volume, controller_get_volume,
  controller_modify_volume, controller_list_volume_health, controller_get_volume_health,
  node_stage_volume, node_unstage_volume, node_get_capabilities, node_get_info,
  node_get_volume_stats, node_expand_volume, node_get_volume_health, node_get_storage_health, serve,
  serve_identity, serve_controller, serve_node,
}
use hcloud_csi_rwx.Testing.{FakeApi, new_api, ok_route, call, first_reply}
use hcloud_csi_rwx.Suite.Disk.{is_ok, is_err, ok_where, err_contains, every}
use hcloud_csi_rwx.Suite.Server.{client, env, on_api, any_to_string}
use hcloud_csi_rwx.Suite.Volumes.{codec}

-- A node on which no address answers and no command is found.
abbrev host : Host FakeApi
host = record {
  http_get = λ url f. (err "error sending request", f);
  create_dir_all = λ path f. (ok tt, f);
  run = λ program args secs f. (not_run "No such file or directory (os error 2)", f);
}

abbrev answered : Procedure → Result Status Answer
answered p = (serve client host env codec 2 0 p (on_api new_api)).0

abbrev is_plugin : Answer → Bool
is_plugin (plugin_info name version) = str_eq name driver_name && str_eq version package_version
is_plugin _ = false

-- The number of capabilities of an answer.
abbrev offers : ℕ → Answer → Bool
offers n (plugin_capabilities l) = length l == n
offers n (controller_capabilities l) = length l == n
offers n (node_capabilities l) = length l == n
offers n _ = false

abbrev is_ready : Answer → Bool
is_ready (ready b) = b
is_ready _ = false

unfoldable identity_reports_name_version_and_capabilities : Bool
identity_reports_name_version_and_capabilities = every (
    ok_where is_plugin (answered (identity_call get_plugin_info))
    ∷ ok_where (offers 1) (answered (identity_call get_plugin_capabilities))
    ∷ ok_where is_ready (answered (identity_call probe))
    ∷ [])

unfoldable controller_capabilities_cover_create_and_publish : Bool
controller_capabilities_cover_create_and_publish =
    ok_where (offers 2) (answered (controller_call controller_get_capabilities))

abbrev headless : Value
headless = object (
    ("apiVersion", str "v1")
    ∷ ("kind", str "Service")
    ∷ ("metadata", object (("name", str "pvc-1") ∷ ("namespace", str "hcloud-csi-rwx") ∷ []))
    ∷ ("spec", object (("clusterIP", str "None") ∷ []))
    ∷ [])

abbrev resolved : FakeApi → Result String String
resolved f =
    recode any_to_string (resolve_current_endpoint client host env codec "pvc-1" (on_api f)).0

unfoldable endpoint_resolution_requires_a_cluster_ip : Bool
endpoint_resolution_requires_a_cluster_ip =
    let f = ok_route "GET /api/v1/namespaces/hcloud-csi-rwx/services/pvc-1" headless new_api in
    err_contains "cluster IP" (resolved f) && is_err (resolved new_api)

abbrev is_unavailable : Result Status Answer → Bool
is_unavailable (err (unavailable m)) = true
is_unavailable (err _) = false
is_unavailable (ok a) = false

unfoldable node_publish_fails_fast_while_the_share_manager_is_gone : Bool
node_publish_fails_fast_while_the_share_manager_is_gone =
    is_unavailable
      (answered (node_call (node_publish_volume_of "pvc-1" "/tmp/hcloud-csi-rwx-publish")))

abbrev is_node : String → Answer → Bool
is_node name (node_info n max) = str_eq n name
is_node name _ = false

unfoldable node_get_info_uses_the_node_name_env : Bool
node_get_info_uses_the_node_name_env =
    ok_where (is_node "unknown") (answered (node_call node_get_info))

unfoldable node_capabilities_and_staging_are_noops : Bool
node_capabilities_and_staging_are_noops = every (
    ok_where (offers 1) (answered (node_call node_get_capabilities))
    ∷ is_ok (answered (node_call node_stage_volume))
    ∷ is_ok (answered (node_call node_unstage_volume))
    ∷ [])

unfoldable node_unpublish_always_succeeds : Bool
node_unpublish_always_succeeds =
    is_ok (answered (node_call (node_unpublish_volume_of "/tmp/hcloud-csi-rwx-nonexistent")))

abbrev lists_nothing : Answer → Bool
lists_nothing (volumes [] token) = true
lists_nothing _ = false

unfoldable controller_stubs_behave : Bool
controller_stubs_behave = every (
    is_ok (answered (controller_call controller_publish_volume))
    ∷ is_ok (answered (controller_call controller_unpublish_volume))
    ∷ is_ok (answered (controller_call validate_volume_capabilities))
    ∷ ok_where lists_nothing (answered (controller_call list_volumes))
    ∷ is_ok (answered (controller_call get_capacity))
    ∷ [])

abbrev is_unimplemented : Result Status Answer → Bool
is_unimplemented (err (unimplemented m)) = true
is_unimplemented (err _) = false
is_unimplemented (ok a) = false

abbrev unsupported : List Procedure
unsupported =
    controller_call create_snapshot
    ∷ controller_call delete_snapshot
    ∷ controller_call list_snapshots
    ∷ controller_call get_snapshot
    ∷ controller_call controller_expand_volume
    ∷ controller_call controller_get_volume
    ∷ controller_call controller_modify_volume
    ∷ controller_call controller_list_volume_health
    ∷ controller_call controller_get_volume_health
    ∷ node_call node_get_volume_stats
    ∷ node_call node_expand_volume
    ∷ node_call node_get_volume_health
    ∷ node_call node_get_storage_health
    ∷ []

unfoldable unsupported_features_report_unimplemented : Bool
unsupported_features_report_unimplemented =
    every (map (λ p. is_unimplemented (answered p)) unsupported)

-- The tests pass.
drivers_pass :
    every (
      identity_reports_name_version_and_capabilities
      ∷ controller_capabilities_cover_create_and_publish ∷ endpoint_resolution_requires_a_cluster_ip
      ∷ node_publish_fails_fast_while_the_share_manager_is_gone
      ∷ node_get_info_uses_the_node_name_env ∷ node_capabilities_and_staging_are_noops
      ∷ node_unpublish_always_succeeds ∷ controller_stubs_behave
      ∷ unsupported_features_report_unimplemented ∷ [])
    ≡ true
unfolding identity_reports_name_version_and_capabilities
    controller_capabilities_cover_create_and_publish endpoint_resolution_requires_a_cluster_ip
    node_publish_fails_fast_while_the_share_manager_is_gone node_get_info_uses_the_node_name_env
    node_capabilities_and_staging_are_noops node_unpublish_always_succeeds controller_stubs_behave
    unsupported_features_report_unimplemented serve serve_identity serve_controller serve_node
    resolve_current_endpoint node_publish_volume node_unpublish_volume run_command volume_name
    share_namespace env_or call first_reply contains_text show_ℕ get_object ◌>>=◌
drivers_pass = refl
