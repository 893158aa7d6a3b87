-- ===== src/Provision/Nodes.antt =====
-- The choice of a node for a share-manager, and the test of a node.
pub mod Choice
use hcloud_csi_rwx.Prelude.{
  String, Bool, false, not, Option, none, some, List, ◌&&◌, and_then, option_map, unwrap_or, any,
  filter, filter_map, map, head?, contains, str_eq,
}
use hcloud_csi_rwx.Kube.{KubeError, Result, ok, err, Pod, Node, Condition, Client}
use hcloud_csi_rwx.Kube.Session.{
  Try, pure, or_fail, attempt, map_err, ◌>>=◌, pods_in, all_nodes, get_object, list_objects,
}
use hcloud_csi_rwx.Provision.Config.{Env, share_namespace}

-- `anyhow::Error`: a failed request to the cluster, or a message.
pub data AnyError : Type 0 where
  kube : KubeError → AnyError
  message : String → AnyError

-- `cond.type_ == "Ready" && cond.status == "True"`
abbrev pub is_ready_condition : Condition → Bool
is_ready_condition cond = str_eq cond.type_ "Ready" && str_eq cond.status "True"

unfoldable pub ready : Node → Bool
ready n =
    unwrap_or (option_map (any is_ready_condition) (and_then n.status (λ s. s.conditions))) false

abbrev pub node_name : Node → String
node_name n = unwrap_or n.name ""

-- The nodes on which share-manager pods stand.
unfoldable pub occupied_by : List Pod → List String
occupied_by = filter_map (λ p. and_then p.spec (λ s. s.node_name))

unfoldable pub suitable : List String → List String → Node → Bool
suitable avoid occupied n =
    ready n && not (contains avoid (node_name n)) && not (contains occupied (node_name n))

unfoldable pub choose : List String → List String → List Node → Option String
choose avoid occupied nodes = head? (map node_name (filter (suitable avoid occupied) nodes))

module _ {W : Type 0} (k : Client W) (env : Env) where
  unfoldable pub pick_node : List String → Try W AnyError String
  pick_node avoid = do
    pods ← map_err kube (list_objects (pods_in k (share_namespace env)) (some "rwx-volume"))
    nodes ← map_err kube (list_objects (all_nodes k) none)
    or_fail (choose avoid (occupied_by pods) nodes) (message "no suitable node found")

  abbrev answer_ready : Result KubeError Node → Bool
  answer_ready (ok n) = ready n
  answer_ready (err e) = false

  -- False also where the node cannot be read.
  unfoldable pub node_is_ready : {E : Type 0} → String → Try W E Bool
  node_is_ready node = do r ← attempt (get_object (all_nodes k) node); pure (answer_ready r)
