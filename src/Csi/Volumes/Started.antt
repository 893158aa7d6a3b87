-- ===== src/Csi/Volumes/Started.antt =====
-- How CreateVolume ends where the pod of the volume comes to run while it waits.
use hcloud_csi_rwx.Prelude.{ℕ, zero, suc, ◌<◌, String, ◌≡◌, refl, ◌∙◌, true, some, ◌∷◌, arith}
use hcloud_csi_rwx.Kube.{ok, Pod, Client}
use hcloud_csi_rwx.Kube.Session.{Session, get, pods, ◌>>=◌, get_object}
use hcloud_csi_rwx.Provision.Config.{Env, share_namespace}
use hcloud_csi_rwx.Provision.Names.{volume_name, share_pod_name}
use hcloud_csi_rwx.Csi.Types.{Codec, CreateVolumeRequest}
use hcloud_csi_rwx.Csi.Volumes.{
  create_volume, provision_objects, wait_running, conclude, is_running, pod_ip, response,
}
use hcloud_csi_rwx.Csi.Volumes.Waiting.{polls, look, after_looks, RestsFor, wait_running-step}

module _ {W : Type 0} (k : Client W) (env : Env) (c : Codec) (attempts delay : ℕ)
    (name : String) where
  wait_running-found :
      (n fuel : ℕ) (pod : Pod) (s : Session W)
      → n < fuel
      → RestsFor k env c attempts delay name n s.world
      → (look k env c attempts delay name (after_looks k env c attempts delay name n s.world)).0
        ≡ ok pod
      → is_running pod ≡ true
      → wait_running k env c attempts delay name fuel s ≡ (
        ok (some (pod_ip pod)),
        record {
          world =
              (look k env c attempts delay name
                (after_looks k env c attempts delay name n s.world)).1;
          calls =
              get (pods (share_namespace env)) name
              ∷ polls (share_namespace env) name delay n s.calls;
        },
      )
  wait_running-found n zero pod s l h there runs = absurd (omega (arith, l))
  wait_running-found zero (suc fuel) pod s l h there runs =
      unfold wait_running ◌>>=◌ get_object in rw (there, runs)
  wait_running-found (suc n) (suc fuel) pod s l (h, hs) there runs =
      wait_running-step k env c attempts delay name fuel _ s refl h
      ∙ wait_running-found n fuel pod _ (omega (arith, l)) hs there runs

module _ {W : Type 0} (k : Client W) (env : Env) (c : Codec) (attempts delay : ℕ) where
  -- Where the objects of a volume are there and its pod first runs in look-up `n` of those that
  -- CreateVolume makes, it answers the volume with the address of that pod, after `n` sleeps and with
  -- nothing deleted or created in the meantime.
  pub create_volume-started :
      (req : CreateVolumeRequest) (n : ℕ) (pod : Pod) (s s₁ : Session W)
      → let name = share_pod_name (volume_name req.name) in
        provision_objects k env c attempts delay req s ≡ (ok tt, s₁)
        → n < attempts
        → RestsFor k env c attempts delay name n s₁.world
        → (look k env c attempts delay name (after_looks k env c attempts delay name n s₁.world)).0
          ≡ ok pod
        → is_running pod ≡ true
        → create_volume k env c attempts delay req s ≡ (
          ok (response req (pod_ip pod)),
          record {
            world =
                (look k env c attempts delay name
                  (after_looks k env c attempts delay name n s₁.world)).1;
            calls =
                get (pods (share_namespace env)) name
                ∷ polls (share_namespace env) name delay n s₁.calls;
          },
        )
  unfolding create_volume conclude ◌>>=◌
  create_volume-started req n pod s s₁ provisioned l rests there runs =
      let found =
        wait_running-found k env c attempts delay (share_pod_name (volume_name req.name)) n attempts
          pod s₁ l rests there runs in
      rw (provisioned, found)
