-- ===== src/Csi/Service/Protocol.antt =====
-- What the protocol, src/proto/csi.proto, ties each procedure of the driver to: a service or a capability.
use hcloud_csi_rwx.Prelude.{◌==◌, ◌∷◌, ℕ, Bool, true, false, any}
use hcloud_csi_rwx.Kube.{Result, ok}
use hcloud_csi_rwx.Csi.Types.{Status}
use hcloud_csi_rwx.Csi.Service.{
  ControllerProcedure, NodeProcedure, Procedure, Answer, ControllerCapability, NodeCapability,
  controller_service,
}

-- What the protocol ties a procedure to: every driver has it, a driver with the controller service has
-- it, or a driver that lists its capability.
pub data Tie : Type 0 where
  every_driver controller_driver : Tie
  controller_with : ControllerCapability → Tie
  node_with : NodeCapability → Tie

abbrev pub controller_tie : ControllerProcedure → Tie
controller_tie (ControllerProcedure.create_volume_of req) =
    controller_with ControllerCapability.create_delete_volume
controller_tie (ControllerProcedure.delete_volume_of name) =
    controller_with ControllerCapability.create_delete_volume
controller_tie ControllerProcedure.controller_publish_volume =
    controller_with ControllerCapability.publish_unpublish_volume
controller_tie ControllerProcedure.controller_unpublish_volume =
    controller_with ControllerCapability.publish_unpublish_volume
controller_tie ControllerProcedure.list_volumes = controller_with ControllerCapability.list_volumes
controller_tie ControllerProcedure.get_capacity = controller_with ControllerCapability.get_capacity
controller_tie ControllerProcedure.create_snapshot =
    controller_with ControllerCapability.create_delete_snapshot
controller_tie ControllerProcedure.delete_snapshot =
    controller_with ControllerCapability.create_delete_snapshot
controller_tie ControllerProcedure.list_snapshots =
    controller_with ControllerCapability.list_snapshots
controller_tie ControllerProcedure.get_snapshot = controller_with ControllerCapability.get_snapshot
controller_tie ControllerProcedure.controller_expand_volume =
    controller_with ControllerCapability.expand_volume
controller_tie ControllerProcedure.controller_get_volume =
    controller_with ControllerCapability.get_volume
controller_tie ControllerProcedure.controller_modify_volume =
    controller_with ControllerCapability.modify_volume
controller_tie ControllerProcedure.controller_list_volume_health =
    controller_with ControllerCapability.list_volume_health
controller_tie ControllerProcedure.controller_get_volume_health =
    controller_with ControllerCapability.get_volume_health
controller_tie ControllerProcedure.validate_volume_capabilities = controller_driver
controller_tie ControllerProcedure.controller_get_capabilities = controller_driver

abbrev pub node_tie : NodeProcedure → Tie
node_tie NodeProcedure.node_stage_volume = node_with NodeCapability.stage_unstage_volume
node_tie NodeProcedure.node_unstage_volume = node_with NodeCapability.stage_unstage_volume
node_tie NodeProcedure.node_get_volume_stats = node_with NodeCapability.get_volume_stats
node_tie NodeProcedure.node_expand_volume = node_with NodeCapability.expand_volume
node_tie NodeProcedure.node_get_volume_health = node_with NodeCapability.get_volume_health
node_tie NodeProcedure.node_get_storage_health = node_with NodeCapability.get_storage_health
node_tie (NodeProcedure.node_publish_volume_of volume_id target) = every_driver
node_tie (NodeProcedure.node_unpublish_volume_of target) = every_driver
node_tie NodeProcedure.node_get_capabilities = every_driver
node_tie NodeProcedure.node_get_info = every_driver

abbrev pub tie : Procedure → Tie
tie (Procedure.identity_call p) = every_driver
tie (Procedure.controller_call p) = controller_tie p
tie (Procedure.node_call p) = node_tie p

-- The numbers of the capabilities in the protocol.
abbrev pub controller_number : ControllerCapability → ℕ
controller_number ControllerCapability.create_delete_volume = 1
controller_number ControllerCapability.publish_unpublish_volume = 2
controller_number ControllerCapability.list_volumes = 3
controller_number ControllerCapability.get_capacity = 4
controller_number ControllerCapability.create_delete_snapshot = 5
controller_number ControllerCapability.list_snapshots = 6
controller_number ControllerCapability.clone_volume = 7
controller_number ControllerCapability.publish_readonly = 8
controller_number ControllerCapability.expand_volume = 9
controller_number ControllerCapability.list_volumes_published_nodes = 10
controller_number ControllerCapability.get_volume = 12
controller_number ControllerCapability.single_node_multi_writer = 13
controller_number ControllerCapability.modify_volume = 14
controller_number ControllerCapability.get_snapshot = 15
controller_number ControllerCapability.get_volume_health = 16
controller_number ControllerCapability.list_volume_health = 17

abbrev pub node_number : NodeCapability → ℕ
node_number NodeCapability.stage_unstage_volume = 1
node_number NodeCapability.get_volume_stats = 2
node_number NodeCapability.expand_volume = 3
node_number NodeCapability.single_node_multi_writer = 5
node_number NodeCapability.volume_mount_group = 6
node_number NodeCapability.get_volume_health = 7
node_number NodeCapability.get_storage_health = 8

-- The capabilities that an answer lists.
abbrev pub lists_service : Result Status Answer → Bool
lists_service (ok (Answer.plugin_capabilities (controller_service ∷ cs))) = true
lists_service _ = false

abbrev pub lists_controller : ControllerCapability → Result Status Answer → Bool
lists_controller c (ok (Answer.controller_capabilities cs)) =
    any (λ d. controller_number c == controller_number d) cs
lists_controller c _ = false

abbrev pub lists_node : NodeCapability → Result Status Answer → Bool
lists_node c (ok (Answer.node_capabilities cs)) = any (λ d. node_number c == node_number d) cs
lists_node c _ = false

-- The procedures that the driver answers although it lists no capability for them.
abbrev pub answers_anyway : Procedure → Bool
answers_anyway (Procedure.controller_call ControllerProcedure.list_volumes) = true
answers_anyway (Procedure.controller_call ControllerProcedure.get_capacity) = true
answers_anyway _ = false
