-- ===== src/Controller/Detach.antt =====
-- Detaching the backing volume: `backing_pv_name`, `force_detach_backing_pvc` and
-- `is_backing_pvc_attached` of src/controller.rs.
pub mod Exact
use hcloud_csi_rwx.Prelude.{
  String, Bool, false, Option, none, some, List, [], ◌∷◌, and_then, unwrap_or, option_filter,
  is_empty, not, any, str_eq, if◌then◌else◌,
}
use hcloud_csi_rwx.Kube.{
  KubeError, Result, ok, err, PersistentVolumeClaim, VolumeAttachment, Client,
}
use hcloud_csi_rwx.Kube.Session.{
  Try, pure, attempt, map_err, ◌>>=◌, ◌>>◌, claims_in, all_attachments, get_object, list_objects,
  delete_object,
}
use hcloud_csi_rwx.Provision.Config.{Env, share_namespace}
use hcloud_csi_rwx.Provision.Names.{backing_pvc_name}
use hcloud_csi_rwx.Provision.Nodes.{AnyError, kube}

-- The volume that a claim is bound to.
abbrev pub bound_volume : PersistentVolumeClaim → Option String
bound_volume pvc = option_filter (λ v. not (is_empty v)) (and_then pvc.spec (λ s. s.volume_name))

abbrev pv_of_answer : Result KubeError PersistentVolumeClaim → Option String
pv_of_answer (ok pvc) = bound_volume pvc
pv_of_answer (err e) = none

abbrev pub attached_to : String → VolumeAttachment → Bool
attached_to pv va = str_eq (unwrap_or va.persistent_volume_name "") pv

abbrev pub attachment_name : VolumeAttachment → String
attachment_name va = unwrap_or va.name ""

module _ {W : Type 0} (k : Client W) (env : Env) where
  unfoldable pub backing_pv_name : {E : Type 0} → String → Try W E (Option String)
  backing_pv_name vn = do
    r ← attempt (get_object (claims_in k (share_namespace env)) (backing_pvc_name vn))
    pure (pv_of_answer r)

  -- The loop over the attachments: a failed deletion is passed over.
  unfoldable pub detach_loop : String → List VolumeAttachment → Try W AnyError (Unit {0})
  detach_loop pv [] = pure tt
  detach_loop pv (va ∷ vas) =
      let rest = detach_loop pv vas in
      if attached_to pv va
      then (do attempt (delete_object (all_attachments k) (attachment_name va)); rest)
      else rest

  unfoldable pub detach_from : Option String → Try W AnyError (Unit {0})
  detach_from none = pure tt
  detach_from (some pv) = do
    vas ← map_err kube (list_objects (all_attachments k) none)
    detach_loop pv vas

  unfoldable pub force_detach_backing_pvc : String → Try W AnyError (Unit {0})
  unfolding detach_from
  force_detach_backing_pvc vn = do backing_pv ← backing_pv_name vn; detach_from backing_pv

  abbrev answer_attached : String → Result KubeError (List VolumeAttachment) → Bool
  answer_attached pv (ok vas) = any (attached_to pv) vas
  answer_attached pv (err e) = false

  unfoldable pub attached_from : {E : Type 0} → Option String → Try W E Bool
  attached_from none = pure false
  attached_from (some pv) = do
    r ← attempt (list_objects (all_attachments k) none)
    pure (answer_attached pv r)

  -- False also where the claim or the attachments cannot be read.
  unfoldable pub is_backing_pvc_attached : {E : Type 0} → String → Try W E Bool
  unfolding attached_from
  is_backing_pvc_attached vn = do backing_pv ← backing_pv_name vn; attached_from backing_pv
