-- ===== src/Controller/Detach/Exact.antt =====
-- Which attachments a forced detach deletes.
use hcloud_csi_rwx.Prelude.{
  String, ◌≡◌, refl, none, some, List, [], ◌∷◌, filter, map, onto, Bool-cases, inl, inr,
}
use hcloud_csi_rwx.Kube.{ok, PersistentVolumeClaim, VolumeAttachment, Client}
use hcloud_csi_rwx.Kube.Session.{
  Session, Call, get, list, delete, claims, attachments, ◌>>=◌, get_object, list_objects,
  delete_object,
}
use hcloud_csi_rwx.Provision.Config.{Env, share_namespace}
use hcloud_csi_rwx.Provision.Names.{backing_pvc_name}
use hcloud_csi_rwx.Controller.Detach.{
  bound_volume, attached_to, attachment_name, backing_pv_name, detach_loop,
  force_detach_backing_pvc,
}

-- The deletion of each attachment that refers to the volume, in the order of the list.
abbrev pub detachments : String → List VolumeAttachment → List Call
detachments pv vas =
    map (λ va. delete attachments (attachment_name va)) (filter (attached_to pv) vas)

module _ {W : Type 0} (k : Client W) (env : Env) where
  detach_loop_calls :
      (pv : String) (vas : List VolumeAttachment) (s : Session W)
      → ((detach_loop k env pv vas s).0 ≡ ok tt)
        × ((detach_loop k env pv vas s).1.calls ≡ onto (detachments pv vas) s.calls)
  unfolding detach_loop ◌>>=◌ delete_object
  detach_loop_calls pv [] s = (refl, refl)
  detach_loop_calls pv (va ∷ vas) s = elim (Bool-cases (attached_to pv va)) [
    | inl e ↦ rw e (detach_loop_calls pv vas _)
    | inr e ↦ rw e (detach_loop_calls pv vas s)
  ]

  module _ (vn : String) (s : Session W) (pvc : PersistentVolumeClaim) (pv : String) where
    abbrev after_claim : W
    after_claim = ((k.claims (share_namespace env)).get (backing_pvc_name vn) s.world).1

    -- Where the backing claim is bound to a volume and the attachments can be listed, a forced detach
    -- deletes exactly the attachments of that volume, also past deletions that fail.
    pub force_detach-exact :
        (vas : List VolumeAttachment)
        → ((k.claims (share_namespace env)).get (backing_pvc_name vn) s.world).0 ≡ ok pvc
        → bound_volume pvc ≡ some pv
        → (k.attachments.list none
            ((k.claims (share_namespace env)).get (backing_pvc_name vn) s.world).1).0
          ≡ ok vas
        → ((force_detach_backing_pvc k env vn s).0 ≡ ok tt)
          × ((force_detach_backing_pvc k env vn s).1.calls
              ≡ onto
                  (get (claims (share_namespace env)) (backing_pvc_name vn)
                    ∷ list attachments
                    ∷ detachments pv vas)
                  s.calls)
    unfolding force_detach_backing_pvc backing_pv_name ◌>>=◌ get_object list_objects
    force_detach-exact vas got bound listed = rw (got, bound, listed) (detach_loop_calls pv vas _)
