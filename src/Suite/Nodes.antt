-- ===== src/Suite/Nodes.antt =====
-- The tests of src/provision.rs that choose a node, on the fake API server.
use hcloud_csi_rwx.Prelude.{String, ◌≡◌, refl, Bool, true, false, not, ◌&&◌, List, [], ◌∷◌, str_eq}
use hcloud_csi_rwx.Json.{Value, str, object}
use hcloud_csi_rwx.Kube.Session.{◌>>=◌, recode, get_object, list_objects}
use hcloud_csi_rwx.Exec.Fake.{contains_text}
use hcloud_csi_rwx.Provision.Config.{env_or, share_namespace}
use hcloud_csi_rwx.Provision.Nodes.{ready, occupied_by, suitable, choose, pick_node, node_is_ready}
use hcloud_csi_rwx.Testing.{FakeApi, new_api, ok_route, call, first_reply}
use hcloud_csi_rwx.Testing.Fixtures.{node_value, node_list, pod_list, empty_list}
use hcloud_csi_rwx.Suite.Disk.{is_err, err_contains, ok_where, every}
use hcloud_csi_rwx.Suite.Server.{client, env, on_api, any_to_string}

-- A running share-manager's pod.
abbrev sm_pod : String → String → Value
sm_pod name node = object (
    ("apiVersion", str "v1")
    ∷ ("kind", str "Pod")
    ∷ (
      "metadata",
      object (
          ("name", str name)
          ∷ ("namespace", str "hcloud-csi-rwx")
          ∷ ("labels", object (("app", str "hcloud-csi-rwx") ∷ ("rwx-volume", str "v") ∷ []))
          ∷ []),
    )
    ∷ ("spec", object (("nodeName", str node) ∷ []))
    ∷ ("status", object (("phase", str "Running") ∷ []))
    ∷ [])

-- A cluster with these pods of share-managers and these nodes.
abbrev pods_and_nodes : Value → List (String × Bool) → FakeApi
pods_and_nodes pods nodes =
    ok_route "GET /api/v1/nodes" (node_list nodes)
      (ok_route "GET /api/v1/namespaces/hcloud-csi-rwx/pods" pods new_api)

abbrev picks : String → List String → FakeApi → Bool
picks node avoid f = ok_where (str_eq node) (pick_node client env avoid (on_api f)).0

unfoldable pick_node_returns_first_ready_and_free_node : Bool
pick_node_returns_first_ready_and_free_node =
    picks "n1" [] (pods_and_nodes (empty_list "PodList") (("n1", true) ∷ ("n2", true) ∷ []))

unfoldable pick_node_skips_not_ready_nodes : Bool
pick_node_skips_not_ready_nodes =
    picks "n2" [] (pods_and_nodes (empty_list "PodList") (("n1", false) ∷ ("n2", true) ∷ []))

unfoldable pick_node_honours_avoid_list : Bool
pick_node_honours_avoid_list =
    picks "n2" ("n1" ∷ [])
      (pods_and_nodes (empty_list "PodList") (("n1", true) ∷ ("n2", true) ∷ []))

unfoldable pick_node_skips_nodes_that_already_host_a_share_manager : Bool
pick_node_skips_nodes_that_already_host_a_share_manager = picks "n2" [] (
    pods_and_nodes (pod_list (sm_pod "share-manager-a" "n1" ∷ []))
      (("n1", true) ∷ ("n2", true) ∷ []))

unfoldable pick_node_errors_when_nothing_is_left : Bool
pick_node_errors_when_nothing_is_left =
    let f = pods_and_nodes (empty_list "PodList") (("n1", true) ∷ []) in
    err_contains "no suitable node"
      (recode any_to_string (pick_node client env ("n1" ∷ []) (on_api f)).0)

unfoldable pick_node_propagates_api_errors : Bool
pick_node_propagates_api_errors = is_err (pick_node client env [] (on_api new_api)).0

abbrev is_ready_in : FakeApi → String → Bool
is_ready_in f node = ok_where (λ b. b) (node_is_ready client env {E = String} node (on_api f)).0

unfoldable node_is_ready_reflects_condition : Bool
node_is_ready_reflects_condition =
    is_ready_in (ok_route "GET /api/v1/nodes/n1" (node_value "n1" true) new_api) "n1"
    && not (is_ready_in (ok_route "GET /api/v1/nodes/n1" (node_value "n1" false) new_api) "n1")

abbrev bare : Value
bare = object (
    ("apiVersion", str "v1")
    ∷ ("kind", str "Node")
    ∷ ("metadata", object (("name", str "n1") ∷ []))
    ∷ [])

unfoldable node_is_ready_false_when_node_is_gone_or_conditionless : Bool
node_is_ready_false_when_node_is_gone_or_conditionless =
    not (is_ready_in new_api "gone")
    && not (is_ready_in (ok_route "GET /api/v1/nodes/n1" bare new_api) "n1")

-- The tests of the choice of a node pass.
choice_passes :
    every (
      pick_node_returns_first_ready_and_free_node ∷ pick_node_skips_not_ready_nodes
      ∷ pick_node_honours_avoid_list ∷ pick_node_skips_nodes_that_already_host_a_share_manager
      ∷ pick_node_errors_when_nothing_is_left ∷ pick_node_propagates_api_errors
      ∷ node_is_ready_reflects_condition ∷ node_is_ready_false_when_node_is_gone_or_conditionless
      ∷ [])
    ≡ true
unfolding pick_node_returns_first_ready_and_free_node pick_node_skips_not_ready_nodes
    pick_node_honours_avoid_list pick_node_skips_nodes_that_already_host_a_share_manager
    pick_node_errors_when_nothing_is_left pick_node_propagates_api_errors
    node_is_ready_reflects_condition node_is_ready_false_when_node_is_gone_or_conditionless
    pick_node node_is_ready choose suitable occupied_by ready node_value node_list pod_list
    empty_list share_namespace env_or call first_reply contains_text get_object list_objects ◌>>=◌
choice_passes = refl
