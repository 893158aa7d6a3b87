-- ===== src/Csi/Service/Refusals.antt =====
-- No step of a procedure that the driver carries out answers that it is not implemented.
use hcloud_csi_rwx.Prelude.{refl, List, ℕ, ◌≡◌, true, false, String, suc, Option, none, some, zero}
use hcloud_csi_rwx.Kube.{KubeError, Result, ok, err, Client, PersistentVolumeClaim, Service, Pod}
use hcloud_csi_rwx.Kube.Session.{send}
use hcloud_csi_rwx.Provision.Config.{Env}
use hcloud_csi_rwx.Csi.Types.{
  Status, internal, CreateVolumeRequest, Codec, Host, Exit, not_run, finished, timed_out,
}
use hcloud_csi_rwx.Csi.Volumes.{
  is_running, create_claim, delete_volume, clear_stuck, create_service, wait_gone, create_pod,
  conclude, wait_running, provision_objects, create_volume,
}
use hcloud_csi_rwx.Csi.Mounts.{
  node_publish_volume, unmounted, run_command, node_unpublish_volume, exit_status,
}
use hcloud_csi_rwx.Csi.Service.Implemented.{
  answers_refusal, Implemented, Implemented-pure, Implemented-fail, Implemented-lift,
  Implemented-map_err, Implemented-attempt, Implemented-if, Implemented-bind, Implemented-elim,
  Implemented-wait,
}

module _ {W : Type 0} (k : Client W) (host : Host W) (env : Env) (c : Codec)
    (attempts delay : ℕ) where
  create_claim-Implemented :
      (req : CreateVolumeRequest) (r : Result KubeError PersistentVolumeClaim)
      → Implemented (create_claim k env c attempts delay req r)
  unfolding create_claim
  create_claim-Implemented req (ok _) = Implemented-pure tt
  create_claim-Implemented req (err _) =
      Implemented-bind _ _ (Implemented-lift internal _ (λ e. refl))
        (λ _. Implemented-bind _ _ (Implemented-map_err _ _ (λ e. refl)) (λ _. Implemented-pure tt))

  create_service-Implemented :
      (req : CreateVolumeRequest) (r : Result KubeError Service)
      → Implemented (create_service k env c attempts delay req r)
  unfolding create_service
  create_service-Implemented req (ok _) = Implemented-pure tt
  create_service-Implemented req (err _) =
      Implemented-bind _ _ (Implemented-lift internal _ (λ e. refl))
        (λ _. Implemented-bind _ _ (Implemented-map_err _ _ (λ e. refl)) (λ _. Implemented-pure tt))

  wait_gone-Implemented :
      (name : String) (n : ℕ) → Implemented (wait_gone k env c attempts delay name n)
  unfolding wait_gone
  wait_gone-Implemented name zero = Implemented-pure tt
  wait_gone-Implemented name (suc n) = Implemented-bind _ _ (Implemented-attempt _) (λ r.
      Implemented-elim r _ _
        (λ pod. Implemented-bind _ _ (Implemented-wait k delay) (λ _. wait_gone-Implemented name n))
        (λ e. Implemented-pure tt))

  clear_stuck-Implemented :
      (name : String) (r : Result KubeError Pod)
      → Implemented (clear_stuck k env c attempts delay name r)
  unfolding clear_stuck
  clear_stuck-Implemented name (err _) = Implemented-pure tt
  clear_stuck-Implemented name (ok pod) =
      Implemented-if _ _ _
        (Implemented-bind _ _ (Implemented-attempt _) (λ _. wait_gone-Implemented name attempts))
        (Implemented-pure tt)

  create_pod-Implemented :
      (req : CreateVolumeRequest) (r : Result KubeError Pod)
      → Implemented (create_pod k env c attempts delay req r)
  unfolding create_pod
  create_pod-Implemented req (ok _) = Implemented-pure tt
  create_pod-Implemented req (err _) =
      Implemented-bind _ _ (Implemented-map_err _ _ (λ e. refl)) (λ _.
        Implemented-bind _ _ (Implemented-lift internal _ (λ e. refl)) (λ _.
          Implemented-bind _ _ (Implemented-map_err _ _ (λ e. refl)) (λ _. Implemented-pure tt)))

  provision_objects-Implemented :
      (req : CreateVolumeRequest) → Implemented (provision_objects k env c attempts delay req)
  unfolding provision_objects
  provision_objects-Implemented req = Implemented-bind _ _ (Implemented-attempt _) λ r.
      Implemented-bind _ _ (create_claim-Implemented req r) λ _.
        Implemented-bind _ _ (Implemented-attempt _) λ q.
          Implemented-bind _ _ (create_service-Implemented req q) λ _.
            Implemented-bind _ _ (Implemented-attempt _) λ p.
              Implemented-bind _ _ (clear_stuck-Implemented _ p)
                λ _. Implemented-bind _ _ (Implemented-attempt _) (create_pod-Implemented req)

  wait_running-Implemented :
      (name : String) (n : ℕ) → Implemented (wait_running k env c attempts delay name n)
  unfolding wait_running
  wait_running-Implemented name zero = Implemented-pure none
  wait_running-Implemented name (suc n) =
      let again =
        Implemented-bind _ _ (Implemented-wait k delay) (λ _. wait_running-Implemented name n) in
      Implemented-bind _ _ (Implemented-attempt _) (λ r.
        Implemented-elim r _ _
          (λ pod. Implemented-if (is_running pod) _ _ (Implemented-pure _) again) (λ e. again))

  conclude-Implemented :
      (req : CreateVolumeRequest) (ip : Option String)
      → Implemented (conclude k env c attempts delay req ip)
  unfolding conclude
  conclude-Implemented req (some ip) = Implemented-pure _
  conclude-Implemented req none = Implemented-bind _ _ (Implemented-attempt _) λ _.
      Implemented-bind _ _ (Implemented-attempt _)
        λ _. Implemented-bind _ _ (Implemented-attempt _) λ _. Implemented-fail _ refl

  pub create_volume-Implemented :
      (req : CreateVolumeRequest) → Implemented (create_volume k env c attempts delay req)
  unfolding create_volume
  create_volume-Implemented req =
      Implemented-bind _ _ (provision_objects-Implemented req)
        λ _. Implemented-bind _ _ (wait_running-Implemented _ attempts) (conclude-Implemented req)

  pub delete_volume-Implemented :
      (name : String) → Implemented (delete_volume k env c attempts delay name)
  unfolding delete_volume
  delete_volume-Implemented name = Implemented-bind _ _ (Implemented-attempt _) λ _.
      Implemented-bind _ _ (Implemented-attempt _) λ _.
        Implemented-bind _ _ (Implemented-attempt _)
          λ _. Implemented-bind _ _ (Implemented-attempt _) λ _. Implemented-pure tt

  exit_status-Implemented :
      (program : String) (secs : ℕ) (e : Exit)
      → answers_refusal (exit_status k host env c program secs e) ≡ false
  exit_status-Implemented program secs timed_out = refl
  exit_status-Implemented program secs (not_run e) = refl
  exit_status-Implemented program secs (finished true t) = refl
  exit_status-Implemented program secs (finished false t) = refl

  run_command-Implemented :
      (program : String) (args : List String) (secs : ℕ)
      → Implemented (run_command k host env c program args secs)
  unfolding run_command send
  run_command-Implemented program args secs = record {
    at = λ s. exit_status-Implemented program secs (host.run program args secs s.world).0;
  }

  pub publish-Implemented :
      (volume_id target : String) → Implemented (node_publish_volume k host env c volume_id target)
  unfolding node_publish_volume
  publish-Implemented volume_id target =
      Implemented-bind _ _ (Implemented-map_err _ _ (λ e. refl)) λ endpoint.
        Implemented-bind _ _ (Implemented-map_err internal _ (λ e. refl))
          λ _. Implemented-if _ _ _ (Implemented-fail _ refl) (run_command-Implemented _ _ _)

  unmounted-Implemented :
      (target : String) (r : Result Status (Unit {0}))
      → Implemented (unmounted k host env c target r)
  unfolding unmounted
  unmounted-Implemented target (ok _) = Implemented-pure tt
  unmounted-Implemented target (err e) =
      Implemented-bind _ _ (Implemented-attempt _) (λ _. Implemented-pure tt)

  pub unpublish-Implemented :
      (target : String) → Implemented (node_unpublish_volume k host env c target)
  unfolding node_unpublish_volume
  unpublish-Implemented target =
      Implemented-bind _ _ (Implemented-attempt _) (unmounted-Implemented target)
