-- ===== src/Controller/Evict.antt =====
-- Evicting the pods that mount a claim: `evict_workload_pods` of src/controller.rs.
pub mod Exact
use hcloud_csi_rwx.Prelude.{
  String, Bool, false, none, List, [], ◌∷◌, ◌||◌, and_then, option_map, unwrap_or, is_empty, any,
  str_eq, if◌then◌else◌,
}
use hcloud_csi_rwx.Kube.{Volume, Pod, Client}
use hcloud_csi_rwx.Kube.Session.{
  Try, pure, attempt, map_err, ◌>>=◌, ◌>>◌, pods_in, list_objects, delete_object,
}
use hcloud_csi_rwx.Provision.Nodes.{AnyError, kube}

abbrev pub mounts_claim : String → Volume → Bool
mounts_claim pvc_name vol = unwrap_or (option_map (λ c. str_eq c pvc_name) vol.claim_name) false

abbrev pub has_claim : String → Pod → Bool
has_claim pvc_name pod =
    unwrap_or (option_map (any (mounts_claim pvc_name)) (and_then pod.spec (λ s. s.volumes))) false

abbrev pub pod_name : Pod → String
pod_name pod = unwrap_or pod.name ""

module _ {W : Type 0} (k : Client W) where
  -- The loop over the pods of the namespace: a failed deletion is passed over.
  unfoldable pub evict_loop : String → String → List Pod → Try W AnyError (Unit {0})
  evict_loop pvc_name pvc_ns [] = pure tt
  evict_loop pvc_name pvc_ns (pod ∷ pods) =
      let rest = evict_loop pvc_name pvc_ns pods in
      if has_claim pvc_name pod
      then (do attempt (delete_object (pods_in k pvc_ns) (pod_name pod)); rest)
      else rest

  unfoldable pub evict_workload_pods : String → String → Try W AnyError (Unit {0})
  evict_workload_pods pvc_name pvc_ns = if is_empty pvc_name || is_empty pvc_ns then pure tt else do
    pods ← map_err kube (list_objects (pods_in k pvc_ns) none)
    evict_loop pvc_name pvc_ns pods
