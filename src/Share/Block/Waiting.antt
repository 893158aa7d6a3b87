-- ===== src/Share/Block/Waiting.antt =====
-- How long the wait for the block device goes on.
use hcloud_csi_rwx.Prelude.{
  ℕ, zero, suc, ◌≤◌, String, ◌≡◌, refl, true, false, [], ◌∷◌, format, arith,
}
use hcloud_csi_rwx.Kube.{ok, err}
use hcloud_csi_rwx.Kube.Session.{Session, ◌>>=◌, fail}
use hcloud_csi_rwx.Share.Machine.{Machine, Manager}
use hcloud_csi_rwx.Share.Block.{wait_for_device}

module _ {W : Type 0} (m : Machine W) (path : String) where
  -- The system after one poll that finds nothing, and after a number of them.
  abbrev pub looked : W → W
  looked w = (m.try_exists path w).1

  abbrev pub after_polls : ℕ → W → W
  after_polls zero w = w
  after_polls (suc n) w = after_polls n (m.sleep (looked w))

  -- The device is not there in the next `n` polls.
  abbrev pub AbsentFor : ℕ → W → Type 0
  AbsentFor zero w = Unit {0}
  AbsentFor (suc n) w = ((m.try_exists path w).0 ≡ ok false) × AbsentFor n (m.sleep (looked w))

  -- A device that is first there in poll `n`, of those that the timeout leaves room for, is found in
  -- that poll: the wait answers its canonical path, as the system gives it at that time.
  pub wait_for_device-found :
      (n polls : ℕ) (s : Session (Manager W))
      → n ≤ polls
      → AbsentFor n s.world.outside
      → (m.try_exists path (after_polls n s.world.outside)).0 ≡ ok true
      → (wait_for_device m path polls s).0
        ≡ (m.canonicalize path (looked (after_polls n s.world.outside))).0
  unfolding wait_for_device ◌>>=◌
  wait_for_device-found zero zero s l a there = rw there refl
  wait_for_device-found zero (suc polls) s l a there = rw there refl
  wait_for_device-found (suc n) zero s l a there = absurd (omega (arith, l))
  wait_for_device-found (suc n) (suc polls) s l (gone, a) there =
      rw gone (wait_for_device-found n polls _ (omega (arith, l)) a there)

  -- A device that is not there in any poll, the last one after the timeout included, ends the wait
  -- with a timeout.
  pub wait_for_device-absent :
      (polls : ℕ) (s : Session (Manager W))
      → AbsentFor (suc polls) s.world.outside
      → (wait_for_device m path polls s).0
        ≡ err (format ("timeout waiting for device " ∷ path ∷ []))
  unfolding wait_for_device fail ◌>>=◌
  wait_for_device-absent zero s (gone, a) = rw gone refl
  wait_for_device-absent (suc polls) s (gone, a) = rw gone (wait_for_device-absent polls _ a)
