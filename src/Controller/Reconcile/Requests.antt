-- ===== src/Controller/Reconcile/Requests.antt =====
-- What requests for other objects than ConfigMaps keep of the world, the steps of a round that send only
-- such requests keep as well.
use hcloud_csi_rwx.Prelude.{String, none, some, List, [], ◌∷◌, Option}
use hcloud_csi_rwx.Kube.{
  KubeError, api, other, Client, Pod, Result, ok, err, VolumeAttachment, Service,
}
use hcloud_csi_rwx.Kube.Keeps.{Keeps, Quiet, keeps_rules, Keeps-bind, Keeps-if}
use hcloud_csi_rwx.Provision.Config.{Env}
use hcloud_csi_rwx.Provision.Nodes.{AnyError, pick_node, node_is_ready}
use hcloud_csi_rwx.Controller.State.{
  Codec, ShareState, ensure_service, service_read, service_created, pick_node_with_reset, picked,
}
use hcloud_csi_rwx.Controller.Detach.{
  detach_loop, detach_from, backing_pv_name, force_detach_backing_pvc, attached_from,
  is_backing_pvc_attached,
}
use hcloud_csi_rwx.Controller.Evict.{evict_loop, evict_workload_pods}

-- No request for an object of another kind than a ConfigMap changes `I`.
pub record Quiets {W : Type 0} (k : Client W) (I : W → Type 0) : Type 0 where
  pub pods : (ns : String) → Quiet I (k.pods ns)
  pub claims : (ns : String) → Quiet I (k.claims ns)
  pub services : (ns : String) → Quiet I (k.services ns)
  pub nodes : Quiet I k.nodes
  pub attachments : Quiet I k.attachments

module _ {W : Type 0} (k : Client W) (env : Env) (c : Codec) (J : W → Type 0)
    (quiets : Quiets k J) where
  pub Quiet-pods : (ns : String) → Quiet J (k.pods ns)
  Quiet-pods = quiets.pods

  Quiet-claims : (ns : String) → Quiet J (k.claims ns)
  Quiet-claims = quiets.claims

  Quiet-services : (ns : String) → Quiet J (k.services ns)
  Quiet-services = quiets.services

  Quiet-nodes : Quiet J k.nodes
  Quiet-nodes = quiets.nodes

  Quiet-attachments : Quiet J k.attachments
  Quiet-attachments = quiets.attachments

  ruleset quiet_rules =
      (keeps_rules, Quiet-pods, Quiet-claims, Quiet-services, Quiet-nodes, Quiet-attachments)

  pub detach_loop-Keeps :
      (pv : String) (vas : List VolumeAttachment) → Keeps J (detach_loop k env pv vas)
  unfolding detach_loop
  detach_loop-Keeps pv [] = search keeps_rules
  detach_loop-Keeps pv (va ∷ vas) =
      Keeps-if _ _ _ (Keeps-bind _ _ (search quiet_rules) (λ _. detach_loop-Keeps pv vas))
        (detach_loop-Keeps pv vas)

  pub backing_pv_name-Keeps :
      {E : Type 0} (vn : String) → Keeps J (backing_pv_name k env {E = E} vn)
  unfolding backing_pv_name
  backing_pv_name-Keeps vn = search quiet_rules depth 8

  pub detach_from-Keeps : (pv : Option String) → Keeps J (detach_from k env pv)
  unfolding detach_from
  detach_from-Keeps none = search quiet_rules
  detach_from-Keeps (some pv) = search (quiet_rules, detach_loop-Keeps) depth 8

  pub force_detach-Keeps : (vn : String) → Keeps J (force_detach_backing_pvc k env vn)
  unfolding force_detach_backing_pvc
  force_detach-Keeps vn = search (keeps_rules, backing_pv_name-Keeps, detach_from-Keeps)

  pub attached_from-Keeps :
      {E : Type 0} (pv : Option String) → Keeps J (attached_from k env {E = E} pv)
  unfolding attached_from
  attached_from-Keeps none = search quiet_rules
  attached_from-Keeps (some pv) = search quiet_rules depth 8

  pub is_attached-Keeps :
      {E : Type 0} (vn : String) → Keeps J (is_backing_pvc_attached k env {E = E} vn)
  unfolding is_backing_pvc_attached
  is_attached-Keeps vn = search (keeps_rules, backing_pv_name-Keeps, attached_from-Keeps)

  pub evict_loop-Keeps : (n ns : String) (l : List Pod) → Keeps J (evict_loop k n ns l)
  unfolding evict_loop
  evict_loop-Keeps n ns [] = search keeps_rules
  evict_loop-Keeps n ns (p ∷ l) =
      Keeps-if _ _ _ (Keeps-bind _ _ (search quiet_rules) (λ _. evict_loop-Keeps n ns l))
        (evict_loop-Keeps n ns l)

  pub evict-Keeps : (n ns : String) → Keeps J (evict_workload_pods k n ns)
  unfolding evict_workload_pods
  evict-Keeps n ns = search (quiet_rules, evict_loop-Keeps) depth 8

  pub node_is_ready-Keeps :
      {E : Type 0} (node : String) → Keeps J (node_is_ready k env {E = E} node)
  unfolding node_is_ready
  node_is_ready-Keeps node = search quiet_rules depth 8

  pub pick_node-Keeps : (avoid : List String) → Keeps J (pick_node k env avoid)
  unfolding pick_node
  pick_node-Keeps avoid = search quiet_rules depth 9

  pub picked-Keeps : (st : ShareState) (r : Result AnyError String) → Keeps J (picked k env c st r)
  unfolding picked
  picked-Keeps st (ok n) = search keeps_rules
  picked-Keeps st (err e) = search (keeps_rules, pick_node-Keeps)

  pub pick-Keeps : (st : ShareState) → Keeps J (pick_node_with_reset k env c st)
  unfolding pick_node_with_reset
  pick-Keeps st = search (keeps_rules, pick_node-Keeps, picked-Keeps)

  pub service_created-Keeps : (r : Result KubeError Service) → Keeps J (service_created k env c r)
  unfolding service_created
  service_created-Keeps (ok _) = search keeps_rules
  service_created-Keeps (err (api code m)) = search keeps_rules
  service_created-Keeps (err (other m)) = search keeps_rules

  pub service_read-Keeps :
      (v : String) (r : Result KubeError Service) → Keeps J (service_read k env c v r)
  unfolding service_read
  service_read-Keeps v (ok _) = search keeps_rules
  service_read-Keeps v (err e) = search (quiet_rules, service_created-Keeps) depth 9

  pub ensure_service-Keeps : (v : String) → Keeps J (ensure_service k env c v)
  unfolding ensure_service
  ensure_service-Keeps v = search (quiet_rules, service_read-Keeps) depth 8
