-- ===== src/Csi/Volumes/Deletion.antt =====
-- What deleting a volume, and giving up on one, removes.
use hcloud_csi_rwx.Prelude.{String, ◌≡◌, refl, none, [], ◌∷◌, onto, ℕ}
use hcloud_csi_rwx.Kube.{ok, err, Client}
use hcloud_csi_rwx.Kube.Session.{
  Session, delete, pods, claims, services, config_maps, ◌>>=◌, delete_object,
}
use hcloud_csi_rwx.Provision.Config.{Env, share_namespace}
use hcloud_csi_rwx.Provision.Names.{volume_name, backing_pvc_name, share_pod_name, state_cm_name}
use hcloud_csi_rwx.Csi.Types.{Codec, CreateVolumeRequest, deadline_exceeded}
use hcloud_csi_rwx.Csi.Volumes.{delete_volume, conclude}

module _ {W : Type 0} (k : Client W) (env : Env) (c : Codec) (attempts delay : ℕ) where
  -- Deleting a volume succeeds whatever the API answers, and it has then asked for the deletion of
  -- the pod, the backing claim, the service and the state of that volume, in this order, and for
  -- nothing else.
  pub delete_volume-exact :
      (name : String) (s : Session W)
      → ((delete_volume k env c attempts delay name s).0 ≡ ok tt)
        × ((delete_volume k env c attempts delay name s).1.calls
            ≡ onto
                (delete (pods (share_namespace env)) (share_pod_name (volume_name name))
                  ∷ delete (claims (share_namespace env)) (backing_pvc_name (volume_name name))
                  ∷ delete (services (share_namespace env)) (volume_name name)
                  ∷ delete (config_maps (share_namespace env)) (state_cm_name (volume_name name))
                  ∷ [])
                s.calls)
  unfolding delete_volume ◌>>=◌ delete_object
  delete_volume-exact name s = (refl, refl)

  -- A volume whose pod did not come up in time is refused, after the deletion of the pod, the claim
  -- and the service was asked for, in this order.
  pub conclude-none :
      (req : CreateVolumeRequest) (s : Session W)
      → ((conclude k env c attempts delay req none s).0
          ≡ err (deadline_exceeded "share-manager pod did not become ready"))
        × ((conclude k env c attempts delay req none s).1.calls
            ≡ onto
                (delete (pods (share_namespace env)) (share_pod_name (volume_name req.name))
                  ∷ delete (claims (share_namespace env)) (backing_pvc_name (volume_name req.name))
                  ∷ delete (services (share_namespace env)) (volume_name req.name)
                  ∷ [])
                s.calls)
  unfolding conclude ◌>>=◌ delete_object
  conclude-none req s = (refl, refl)
