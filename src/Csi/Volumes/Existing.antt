-- ===== src/Csi/Volumes/Existing.antt =====
-- CreateVolume on a volume that is there already.
use hcloud_csi_rwx.Prelude.{
  ℕ, suc, ◌≡◌, refl, true, false, [], ◌∷◌, onto, str_eq, str_eq_iff, unwrap_or, Option-cases, inl,
  inr,
}
use hcloud_csi_rwx.Kube.{ok, Client, Pod, Service, PersistentVolumeClaim}
use hcloud_csi_rwx.Kube.Session.{Session, get, pods, claims, services, ◌>>=◌, get_object}
use hcloud_csi_rwx.Provision.Config.{Env, share_namespace}
use hcloud_csi_rwx.Provision.Names.{volume_name, backing_pvc_name, share_pod_name}
use hcloud_csi_rwx.Csi.Types.{Codec, CreateVolumeRequest}
use hcloud_csi_rwx.Csi.Volumes.{
  create_volume, provision_objects, create_claim, create_service, create_pod, clear_stuck,
  wait_running, conclude, is_running, phase_of, pod_ip, response,
}

running-not_pending :
    (pod : Pod) → is_running pod ≡ true → str_eq (unwrap_or (phase_of pod) "") "Pending" ≡ false
running-not_pending pod h = elim (Option-cases (phase_of pod)) [
  | inl e ↦ rw e refl
  | inr (p, e) ↦ rw (e, (str_eq_iff p "Running").0 (rw e at h)) refl
]

module _ {W : Type 0} (k : Client W) (env : Env) (c : Codec) (attempts delay : ℕ) where
  -- With at least one attempt: where the backing claim and the service of a volume are there and its
  -- pod runs, CreateVolume answers the volume with the address of that pod, and it only looks: for the
  -- claim, the service and three times for the pod. Asking again changes nothing.
  pub create_volume-existing :
      (req : CreateVolumeRequest) (claim : PersistentVolumeClaim) (svc : Service) (pod : Pod)
      (s : Session W)
      → (k.claims (share_namespace env)).get (backing_pvc_name (volume_name req.name)) s.world
        ≡ (ok claim, s.world)
      → (k.services (share_namespace env)).get (volume_name req.name) s.world ≡ (ok svc, s.world)
      → (k.pods (share_namespace env)).get (share_pod_name (volume_name req.name)) s.world
        ≡ (ok pod, s.world)
      → is_running pod ≡ true
      → create_volume k env c (suc attempts) delay req s ≡ (
        ok (response req (pod_ip pod)),
        record s {
          calls =
              onto
                (get (claims (share_namespace env)) (backing_pvc_name (volume_name req.name))
                  ∷ get (services (share_namespace env)) (volume_name req.name)
                  ∷ get (pods (share_namespace env)) (share_pod_name (volume_name req.name))
                  ∷ get (pods (share_namespace env)) (share_pod_name (volume_name req.name))
                  ∷ get (pods (share_namespace env)) (share_pod_name (volume_name req.name))
                  ∷ [])
                s.calls;
        },
      )
  unfolding create_volume provision_objects create_claim create_service create_pod clear_stuck
      wait_running conclude ◌>>=◌ get_object
  create_volume-existing req claim svc pod s hc hs hp runs =
      rw (hc, hs, hp, running-not_pending pod runs, hp, hp, runs) refl
