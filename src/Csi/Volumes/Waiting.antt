-- ===== src/Csi/Volumes/Waiting.antt =====
-- How CreateVolume waits for the pod, and what its answer rests on.
use hcloud_csi_rwx.Prelude.{
  onto, ℕ, zero, suc, String, ◌≡◌, refl, none, List, [], ◌∷◌, Bool-cases, inl, inr, ◌≢◌, some, ap,
  ◌∙◌, str_eq, str_eq_iff, Option-cases, false,
}
use hcloud_csi_rwx.Kube.{Result, KubeError, ok, err, Client, Pod}
use hcloud_csi_rwx.Kube.Session.{
  delete, claims, services, Session, Call, get, sleep, pods, ◌>>=◌, get_object, wait, pure,
}
use hcloud_csi_rwx.Provision.Config.{Env, share_namespace}
use hcloud_csi_rwx.Csi.Types.{Codec, CreateVolumeRequest, deadline_exceeded}
use hcloud_csi_rwx.Csi.Volumes.Deletion.{conclude-none}
use hcloud_csi_rwx.Provision.Names.{volume_name, backing_pvc_name, share_pod_name}
use hcloud_csi_rwx.Csi.Volumes.{
  create_volume, provision_objects, wait_running, is_running, phase_of,
}

-- The requests of a number of attempts that did not find the pod running, the latest first: a look-up
-- and a sleep in each.
abbrev pub polls : String → String → ℕ → ℕ → List Call → List Call
polls ns name delay zero calls = calls
polls ns name delay (suc n) calls = polls ns name delay n (sleep delay ∷ get (pods ns) name ∷ calls)

-- A look-up that does not find a pod whose phase is `Running`.
abbrev pub Rests : Result KubeError Pod → Type 0
Rests (ok pod) = phase_of pod ≢ some "Running"
Rests (err e) = Unit {0}

rests-idle : (pod : Pod) → phase_of pod ≢ some "Running" → is_running pod ≡ false
rests-idle pod h = elim (Option-cases (phase_of pod)) [
  | inl e ↦ rw (is_running, e) refl
  | inr (p, e) ↦ elim (Bool-cases (str_eq p "Running")) [
    | inl same ↦ absurd (h (e ∙ ap some ((str_eq_iff p "Running").0 same)))
    | inr other ↦ rw (is_running, e) other
  ]
]

module _ {W : Type 0} (k : Client W) (env : Env) (c : Codec) (attempts delay : ℕ)
    (name : String) where
  abbrev pub look : W → Result KubeError Pod × W
  look = (k.pods (share_namespace env)).get name

  -- The cluster after a number of look-ups and sleeps.
  abbrev pub after_looks : ℕ → W → W
  after_looks zero w = w
  after_looks (suc n) w = after_looks n (k.sleep delay (look w).1)

  -- The pod does not run in the next `n` look-ups.
  abbrev pub RestsFor : ℕ → W → Type 0
  RestsFor zero w = Unit {0}
  RestsFor (suc n) w = Rests (look w).0 × RestsFor n (k.sleep delay (look w).1)

  pub wait_running-step :
      (fuel : ℕ) (r : Result KubeError Pod) (s : Session W)
      → (look s.world).0 ≡ r
      → Rests r
      → wait_running k env c attempts delay name (suc fuel) s
        ≡ wait_running k env c attempts delay name fuel (record {
          world = k.sleep delay (look s.world).1;
          calls = sleep delay ∷ get (pods (share_namespace env)) name ∷ s.calls;
        })
  unfolding wait_running ◌>>=◌ get_object wait
  wait_running-step fuel (ok pod) s e h = rw (e, rests-idle pod h)
  wait_running-step fuel (err _) s e h = rw e

  wait_running-rests :
      (n : ℕ) (s : Session W)
      → RestsFor n s.world
      → wait_running k env c attempts delay name n s ≡ (
        ok none,
        record {
          world = after_looks n s.world;
          calls = polls (share_namespace env) name delay n s.calls;
        },
      )
  unfolding pure
  wait_running-rests zero s h = unfold wait_running in refl
  wait_running-rests (suc n) s (h, hs) = wait_running-step n _ s refl h ∙ wait_running-rests n _ hs

module _ {W : Type 0} (k : Client W) (env : Env) (c : Codec) (attempts delay : ℕ) where
  -- Where the objects of a volume are there and no look-up of its pod, one in each attempt, finds it
  -- in the phase `Running`, CreateVolume has looked for the pod and slept once in each attempt, then
  -- asked for the deletion of the pod, the backing claim and the service, and it answers that the
  -- deadline is exceeded.
  pub create_volume-none :
      (req : CreateVolumeRequest) (s s₁ : Session W)
      → let name = share_pod_name (volume_name req.name) in
        provision_objects k env c attempts delay req s ≡ (ok tt, s₁)
        → RestsFor k env c attempts delay name attempts s₁.world
        → ((create_volume k env c attempts delay req s).0
            ≡ err (deadline_exceeded "share-manager pod did not become ready"))
          × ((create_volume k env c attempts delay req s).1.calls
              ≡ onto
                  (delete (pods (share_namespace env)) name
                    ∷ delete
                        (claims (share_namespace env))
                        (backing_pvc_name (volume_name req.name))
                    ∷ delete (services (share_namespace env)) (volume_name req.name)
                    ∷ [])
                  (polls (share_namespace env) name delay attempts s₁.calls))
  unfolding create_volume ◌>>=◌
  create_volume-none req s s₁ provisioned rests =
      let waited =
        wait_running-rests k env c attempts delay (share_pod_name (volume_name req.name)) attempts
          s₁ rests in
      let end = conclude-none k env c attempts delay req (record {
        world =
            after_looks k env c attempts delay (share_pod_name (volume_name req.name)) attempts
              s₁.world;
        calls =
            polls (share_namespace env) (share_pod_name (volume_name req.name)) delay attempts
              s₁.calls;
      }) in
      rw (provisioned, waited, end.0, end.1) (refl, refl)
