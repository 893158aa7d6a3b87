-- ===== src/Csi/Service.antt =====
-- The three services of the driver, procedure by procedure, and where it listens: src/csi.rs.
pub mod Implemented
pub mod Refusals
pub mod Protocol
pub mod Answers
use Prim.Native.Char.{code}
use Prim.Native.String as S
use hcloud_csi_rwx.Prelude.{
  ℕ, String, Bool, true, false, Option, none, some, List, [], ◌∷◌, unwrap_or, ◌==◌, if◌then◌else◌,
  ◌&&◌,
}
use hcloud_csi_rwx.Prelude.Int.{ℤ, pos}
use hcloud_csi_rwx.Map.{Map}
use hcloud_csi_rwx.Kube.{Client}
use hcloud_csi_rwx.Kube.Session.{Try, pure, fail, ◌>>=◌, ◌>>◌}
use hcloud_csi_rwx.Provision.Config.{Env, driver_name}
use hcloud_csi_rwx.Csi.Types.{
  Status, unimplemented, CreateVolumeRequest, CreateVolumeResponse, Codec, Host,
}
use hcloud_csi_rwx.Csi.Volumes.{create_volume, delete_volume}
use hcloud_csi_rwx.Csi.Mounts.{node_publish_volume, node_unpublish_volume}

-- The procedures of the protocol, with what the driver reads of their requests.
pub data IdentityProcedure : Type 0 where
  get_plugin_info get_plugin_capabilities probe : IdentityProcedure

pub data ControllerProcedure : Type 0 where
  create_volume_of : CreateVolumeRequest → ControllerProcedure
  delete_volume_of : String → ControllerProcedure
  controller_publish_volume controller_unpublish_volume : ControllerProcedure
  validate_volume_capabilities list_volumes get_capacity : ControllerProcedure
  controller_get_capabilities : ControllerProcedure
  create_snapshot delete_snapshot list_snapshots get_snapshot : ControllerProcedure
  controller_expand_volume controller_get_volume controller_modify_volume : ControllerProcedure
  controller_list_volume_health controller_get_volume_health : ControllerProcedure

pub data NodeProcedure : Type 0 where
  node_stage_volume node_unstage_volume : NodeProcedure
  node_publish_volume_of : String → String → NodeProcedure
  node_unpublish_volume_of : String → NodeProcedure
  node_get_capabilities node_get_info node_get_volume_stats node_expand_volume : NodeProcedure
  node_get_volume_health node_get_storage_health : NodeProcedure

pub data Procedure : Type 0 where
  identity_call : IdentityProcedure → Procedure
  controller_call : ControllerProcedure → Procedure
  node_call : NodeProcedure → Procedure

pub data ServiceCapability : Type 0 where
  controller_service : ServiceCapability

-- The capabilities of the protocol, src/proto/csi.proto, by their words there.
pub data ControllerCapability : Type 0 where
  create_delete_volume publish_unpublish_volume list_volumes get_capacity : ControllerCapability
  create_delete_snapshot list_snapshots clone_volume publish_readonly : ControllerCapability
  expand_volume list_volumes_published_nodes get_volume : ControllerCapability
  single_node_multi_writer modify_volume get_snapshot get_volume_health : ControllerCapability
  list_volume_health : ControllerCapability

pub data NodeCapability : Type 0 where
  stage_unstage_volume get_volume_stats expand_volume single_node_multi_writer : NodeCapability
  volume_mount_group get_volume_health get_storage_health : NodeCapability

pub data Answer : Type 0 where
  plugin_info : String → String → Answer
  plugin_capabilities : List ServiceCapability → Answer
  ready : Bool → Answer
  created : CreateVolumeResponse → Answer
  published : Map String → Answer
  validated : Option String → String → Answer
  volumes : List String → String → Answer
  capacity : ℤ → Answer
  controller_capabilities : List ControllerCapability → Answer
  node_capabilities : List NodeCapability → Answer
  node_info : String → ℕ → Answer
  done : Answer

-- `CARGO_PKG_VERSION`, the version of Cargo.toml
abbrev pub package_version : String
package_version = "0.2.2"

abbrev plugin_info_answer : Answer
plugin_info_answer = plugin_info driver_name package_version

abbrev capabilities_answer : Answer
capabilities_answer = controller_capabilities (create_delete_volume ∷ publish_unpublish_volume ∷ [])

abbrev node_info_answer : Env → Answer
node_info_answer env = node_info (unwrap_or (env "NODE_NAME") "unknown") 0

module _ {W : Type 0} (k : Client W) (host : Host W) (env : Env) (c : Codec)
    (attempts delay : ℕ) where
  abbrev refuse : String → Try W Status Answer
  refuse text = fail (unimplemented text)

  -- `impl Identity`
  unfoldable pub serve_identity : IdentityProcedure → Try W Status Answer
  serve_identity get_plugin_info = pure plugin_info_answer
  serve_identity get_plugin_capabilities = pure (plugin_capabilities (controller_service ∷ []))
  serve_identity probe = pure (ready true)

  -- `impl Controller`
  unfoldable pub serve_controller : ControllerProcedure → Try W Status Answer
  serve_controller (create_volume_of req) = do
    r ← create_volume k env c attempts delay req
    pure (created r)
  serve_controller (delete_volume_of name) = do delete_volume k env c attempts delay name; pure done
  serve_controller controller_publish_volume = pure (published [])
  serve_controller controller_unpublish_volume = pure done
  serve_controller validate_volume_capabilities = pure (validated none "")
  serve_controller list_volumes = pure (volumes [] "")
  serve_controller get_capacity = pure (capacity (pos 1099511627776))
  serve_controller controller_get_capabilities = pure capabilities_answer
  serve_controller create_snapshot = refuse "snapshots not supported"
  serve_controller delete_snapshot = refuse "snapshots not supported"
  serve_controller list_snapshots = refuse "snapshots not supported"
  serve_controller get_snapshot = refuse "snapshots not supported"
  serve_controller controller_expand_volume = refuse "expansion not yet supported"
  serve_controller controller_get_volume = refuse "controller_get_volume not supported"
  serve_controller controller_modify_volume = refuse "modify volume not supported"
  serve_controller controller_list_volume_health = refuse "volume health not supported"
  serve_controller controller_get_volume_health = refuse "volume health not supported"

  -- `impl Node`
  unfoldable pub serve_node : NodeProcedure → Try W Status Answer
  serve_node node_stage_volume = pure done
  serve_node node_unstage_volume = pure done
  serve_node (node_publish_volume_of volume_id target) = do
    node_publish_volume k host env c volume_id target
    pure done
  serve_node (node_unpublish_volume_of target) = do
    node_unpublish_volume k host env c target
    pure done
  serve_node node_get_capabilities = pure (node_capabilities (stage_unstage_volume ∷ []))
  serve_node node_get_info = pure (node_info_answer env)
  serve_node node_get_volume_stats = refuse "volume stats not supported"
  serve_node node_expand_volume = refuse "expansion not yet supported"
  serve_node node_get_volume_health = refuse "volume health not supported"
  serve_node node_get_storage_health = refuse "storage health not supported"

  unfoldable pub serve : Procedure → Try W Status Answer
  unfolding serve_identity serve_controller serve_node
  serve (identity_call p) = serve_identity p
  serve (controller_call p) = serve_controller p
  serve (node_call p) = serve_node p

-- Where the server of the driver listens: a socket in the file system, or an address to parse.
pub data Listener : Type 0 where
  unix_socket : String → Listener
  tcp_address : String → Listener

-- `strip_prefix`
unfoldable pub strip_prefix : String → String → Option String
strip_prefix S.[] s = some s
strip_prefix (S.◌∷◌ c p) S.[] = none
strip_prefix (S.◌∷◌ c p) (S.◌∷◌ d s) =
    let rest = strip_prefix p s in if code c == code d then rest else none

abbrev listener_for : String → Option String → Listener
listener_for endpoint none = tcp_address endpoint
listener_for endpoint (some path) = unix_socket path

-- The choice in `main`.
unfoldable pub listener : Env → Listener
unfolding strip_prefix
listener env =
    let endpoint = unwrap_or (env "CSI_ENDPOINT") "unix:///csi/csi.sock" in
    listener_for endpoint (strip_prefix "unix://" endpoint)
