-- ===== src/Csi/Service/Answers.antt =====
-- What the procedures answer, and which of them the driver offers.
use Prim.Native.String as S
use text.Mathlib.TextLemmas.{nil-append, cons-append}
use hcloud_csi_rwx.Prelude.{not, ◌||◌, ℕ, Bool, true, false, String, ◌≡◌, refl, some, arith}
use hcloud_csi_rwx.Kube.{Client}
use hcloud_csi_rwx.Kube.Session.{Session, pure, fail}
use hcloud_csi_rwx.Provision.Config.{Env}
use hcloud_csi_rwx.Csi.Types.{Codec, Host}
use hcloud_csi_rwx.Csi.Service.{
  IdentityProcedure, ControllerProcedure, NodeProcedure, Procedure, serve, strip_prefix, listener,
  unix_socket,
}
use hcloud_csi_rwx.Csi.Service.Implemented.{answers_refusal, Implemented-bind, Implemented-pure}
use hcloud_csi_rwx.Csi.Service.Refusals.{
  create_volume-Implemented, delete_volume-Implemented, publish-Implemented, unpublish-Implemented,
}
use hcloud_csi_rwx.Csi.Service.Protocol.{
  every_driver, controller_driver, controller_with, node_with, tie, lists_service, lists_controller,
  lists_node, answers_anyway,
}

-- The procedures that do work on the cluster or the node.
abbrev pub works : Procedure → Bool
works (Procedure.controller_call (ControllerProcedure.create_volume_of req)) = true
works (Procedure.controller_call (ControllerProcedure.delete_volume_of name)) = true
works (Procedure.node_call (NodeProcedure.node_publish_volume_of volume_id target)) = true
works (Procedure.node_call (NodeProcedure.node_unpublish_volume_of target)) = true
works _ = false

module _ {W : Type 0} (k : Client W) (host : Host W) (env : Env) (c : Codec)
    (attempts delay : ℕ) where
  -- The driver offers a procedure: every driver has it, or the driver itself lists the service or
  -- the capability that the protocol ties it to.
  abbrev pub offered : Procedure → Session W → Bool
  offered p s = elim (tie p) [
    | every_driver ↦ true
    | controller_driver ↦
        lists_service
          (serve k host env c attempts delay
            (Procedure.identity_call IdentityProcedure.get_plugin_capabilities) s).0
    | controller_with cap ↦
        lists_controller cap
          (serve k host env c attempts delay
            (Procedure.controller_call ControllerProcedure.controller_get_capabilities) s).0
    | node_with cap ↦
        lists_node cap
          (serve k host env c attempts delay
            (Procedure.node_call NodeProcedure.node_get_capabilities) s).0
  ]

  -- The driver answers that a procedure is not implemented exactly where it does not offer it: the
  -- protocol ties every procedure to each driver, to a service or to a capability, and the driver
  -- offers those of each driver and of what it lists itself. The two exceptions are the listing of
  -- the volumes and the capacity: it lists neither capability and answers all the same.
  pub serve-offered :
      (p : Procedure) (s : Session W)
      → answers_refusal (serve k host env c attempts delay p s).0
        ≡ not (offered p s || answers_anyway p)
  unfolding serve pure fail
  serve-offered (Procedure.identity_call IdentityProcedure.get_plugin_info) s = refl
  serve-offered (Procedure.identity_call IdentityProcedure.get_plugin_capabilities) s = refl
  serve-offered (Procedure.identity_call IdentityProcedure.probe) s = refl
  serve-offered (Procedure.controller_call (ControllerProcedure.create_volume_of req)) s =
      (Implemented-bind _ _ (create_volume-Implemented k host env c attempts delay req)
          (λ _. Implemented-pure _)).at
        s
  serve-offered (Procedure.controller_call (ControllerProcedure.delete_volume_of name)) s =
      (Implemented-bind _ _ (delete_volume-Implemented k host env c attempts delay name)
          (λ _. Implemented-pure _)).at
        s
  serve-offered (Procedure.controller_call ControllerProcedure.controller_publish_volume) s = refl
  serve-offered (Procedure.controller_call ControllerProcedure.controller_unpublish_volume) s = refl
  serve-offered (Procedure.controller_call ControllerProcedure.list_volumes) s = refl
  serve-offered (Procedure.controller_call ControllerProcedure.get_capacity) s = refl
  serve-offered (Procedure.controller_call ControllerProcedure.create_snapshot) s = refl
  serve-offered (Procedure.controller_call ControllerProcedure.delete_snapshot) s = refl
  serve-offered (Procedure.controller_call ControllerProcedure.list_snapshots) s = refl
  serve-offered (Procedure.controller_call ControllerProcedure.get_snapshot) s = refl
  serve-offered (Procedure.controller_call ControllerProcedure.controller_expand_volume) s = refl
  serve-offered (Procedure.controller_call ControllerProcedure.controller_get_volume) s = refl
  serve-offered (Procedure.controller_call ControllerProcedure.controller_modify_volume) s = refl
  serve-offered (Procedure.controller_call ControllerProcedure.controller_list_volume_health) s =
      refl
  serve-offered (Procedure.controller_call ControllerProcedure.controller_get_volume_health) s =
      refl
  serve-offered (Procedure.controller_call ControllerProcedure.validate_volume_capabilities) s =
      refl
  serve-offered (Procedure.controller_call ControllerProcedure.controller_get_capabilities) s = refl
  serve-offered (Procedure.node_call NodeProcedure.node_stage_volume) s = refl
  serve-offered (Procedure.node_call NodeProcedure.node_unstage_volume) s = refl
  serve-offered (Procedure.node_call NodeProcedure.node_get_volume_stats) s = refl
  serve-offered (Procedure.node_call NodeProcedure.node_expand_volume) s = refl
  serve-offered (Procedure.node_call NodeProcedure.node_get_volume_health) s = refl
  serve-offered (Procedure.node_call NodeProcedure.node_get_storage_health) s = refl
  serve-offered (Procedure.node_call (NodeProcedure.node_publish_volume_of volume_id target)) s =
      (Implemented-bind _ _ (publish-Implemented k host env c attempts delay volume_id target)
          (λ _. Implemented-pure _)).at
        s
  serve-offered (Procedure.node_call (NodeProcedure.node_unpublish_volume_of target)) s =
      (Implemented-bind _ _ (unpublish-Implemented k host env c attempts delay target)
          (λ _. Implemented-pure _)).at
        s
  serve-offered (Procedure.node_call NodeProcedure.node_get_capabilities) s = refl
  serve-offered (Procedure.node_call NodeProcedure.node_get_info) s = refl

  -- Every procedure but the creation and deletion of a volume and its mount and unmount on a node
  -- leaves the cluster and the node alone: it sends no request.
  pub serve-quiet :
      (p : Procedure) (s : Session W)
      → works p ≡ false
      → (serve k host env c attempts delay p s).1 ≡ s
  unfolding serve pure fail
  serve-quiet (Procedure.identity_call IdentityProcedure.get_plugin_info) s h = refl
  serve-quiet (Procedure.identity_call IdentityProcedure.get_plugin_capabilities) s h = refl
  serve-quiet (Procedure.identity_call IdentityProcedure.probe) s h = refl
  serve-quiet (Procedure.controller_call ControllerProcedure.controller_publish_volume) s h = refl
  serve-quiet (Procedure.controller_call ControllerProcedure.controller_unpublish_volume) s h = refl
  serve-quiet (Procedure.controller_call ControllerProcedure.validate_volume_capabilities) s h =
      refl
  serve-quiet (Procedure.controller_call ControllerProcedure.list_volumes) s h = refl
  serve-quiet (Procedure.controller_call ControllerProcedure.get_capacity) s h = refl
  serve-quiet (Procedure.controller_call ControllerProcedure.controller_get_capabilities) s h = refl
  serve-quiet (Procedure.node_call NodeProcedure.node_stage_volume) s h = refl
  serve-quiet (Procedure.node_call NodeProcedure.node_unstage_volume) s h = refl
  serve-quiet (Procedure.node_call NodeProcedure.node_get_capabilities) s h = refl
  serve-quiet (Procedure.node_call NodeProcedure.node_get_info) s h = refl
  serve-quiet (Procedure.controller_call ControllerProcedure.create_snapshot) s h = refl
  serve-quiet (Procedure.controller_call ControllerProcedure.delete_snapshot) s h = refl
  serve-quiet (Procedure.controller_call ControllerProcedure.list_snapshots) s h = refl
  serve-quiet (Procedure.controller_call ControllerProcedure.get_snapshot) s h = refl
  serve-quiet (Procedure.controller_call ControllerProcedure.controller_expand_volume) s h = refl
  serve-quiet (Procedure.controller_call ControllerProcedure.controller_get_volume) s h = refl
  serve-quiet (Procedure.controller_call ControllerProcedure.controller_modify_volume) s h = refl
  serve-quiet (Procedure.controller_call ControllerProcedure.controller_list_volume_health) s h =
      refl
  serve-quiet (Procedure.controller_call ControllerProcedure.controller_get_volume_health) s h =
      refl
  serve-quiet (Procedure.node_call NodeProcedure.node_get_volume_stats) s h = refl
  serve-quiet (Procedure.node_call NodeProcedure.node_expand_volume) s h = refl
  serve-quiet (Procedure.node_call NodeProcedure.node_get_volume_health) s h = refl
  serve-quiet (Procedure.node_call NodeProcedure.node_get_storage_health) s h = refl
  serve-quiet (Procedure.controller_call (ControllerProcedure.create_volume_of req)) s h = cc h
  serve-quiet (Procedure.controller_call (ControllerProcedure.delete_volume_of name)) s h = cc h
  serve-quiet (Procedure.node_call (NodeProcedure.node_publish_volume_of volume_id target)) s h =
      cc h
  serve-quiet (Procedure.node_call (NodeProcedure.node_unpublish_volume_of target)) s h = cc h

strip_prefix-append : (p s : String) → strip_prefix p (S.◌++◌ p s) ≡ some s
unfolding strip_prefix
strip_prefix-append S.[] s = rw nil-append refl
strip_prefix-append (S.◌∷◌ c p) s = rw cons-append (ground (arith, strip_prefix-append p s))

-- The driver listens on the socket of a path that `CSI_ENDPOINT` gives as `unix://` and the path.
pub listener-unix :
    (env : Env) (path : String)
    → env "CSI_ENDPOINT" ≡ some (S.◌++◌ "unix://" path)
    → listener env ≡ unix_socket path
unfolding listener
listener-unix env path e = rw (e, strip_prefix-append "unix://" path) refl
