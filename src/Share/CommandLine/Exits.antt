-- ===== src/Share/CommandLine/Exits.antt =====
-- How the program of the share-manager exits.
use hcloud_csi_rwx.Prelude.{
  ℕ, suc, ◌<◌, String, ◌≡◌, ◌⊎◌, refl, Bool, true, false, Option, none, some, List, ◌++◌, inl, inr,
  replicate,
}
use hcloud_csi_rwx.Kube.{Result, ok, err}
use hcloud_csi_rwx.Kube.Session.{Session}
use hcloud_csi_rwx.Exec.Fake.{World, usize_max, fake_machine}
use hcloud_csi_rwx.Share.Machine.{Machine, Manager}
use hcloud_csi_rwx.Share.Manager.{
  Event, tick, ExitReason, signal, ganesha_died, volume_unhealthy, run, validate, prepare_volume,
  is_clean,
}
use hcloud_csi_rwx.Share.CommandLine.{
  Run, start, Ending, succeeded, exited, still_runs, of_result, main, beside, boot, settings_of,
  into_settings, printed, panicked, failed,
}
use hcloud_csi_rwx.Share.Server.{Network, serve_api}
use hcloud_csi_rwx.Share.Ending.{run-ended}

-- The server of the API did not fail.
abbrev pub Serves : Option (Result String (Unit {0})) → Type 0
Serves none = Unit {0}
Serves (some (ok _)) = Unit {0}
Serves (some (err e)) = ⊥

-- What the ending of the process says of the run of the share-manager and of the server beside it.
abbrev pub Tells :
    Ending → Bool → Option (Result String (Unit {0})) → Result String (Option ExitReason) → Type 0
Tells succeeded root api r = (root ≡ true) × Serves api × (r ≡ ok (some signal))
Tells still_runs root api r = (root ≡ true) × Serves api × (r ≡ ok none)
Tells (exited code) root api r =
    (code ≡ 1)
    × ((root ≡ false)
        ⊎ (((e : String) × (api ≡ some (err e)))
            ⊎ (((e : String) × (r ≡ err e))
                ⊎ ((reason : ExitReason) × ((r ≡ ok (some reason)) × (is_clean reason ≡ false))))))
Tells (printed text) root api r = ⊥
Tells (panicked text) root api r = ⊥
Tells (failed text) root api r = ⊥

module _ {W : Type 0} (m : Machine W) where
  run-Tells :
      (api : Option (Result String (Unit {0}))) (r : Result String (Option ExitReason))
      → Serves api
      → Tells (of_result r) true api r
  run-Tells api (err e) h = (refl, inr (inr (inl (e, refl))))
  run-Tells api (ok none) h = (refl, h, refl)
  run-Tells api (ok (some signal)) h = (refl, h, refl)
  run-Tells api (ok (some ganesha_died)) h = (refl, inr (inr (inr (ganesha_died, (refl, refl)))))
  run-Tells api (ok (some volume_unhealthy)) h =
      (refl, inr (inr (inr (volume_unhealthy, (refl, refl)))))

  beside-Tells :
      (api : Option (Result String (Unit {0}))) (r : Result String (Option ExitReason))
      → Tells (beside m api (of_result r)) true api r
  beside-Tells none r = run-Tells none r tt
  beside-Tells (some (ok _)) r = run-Tells (some (ok _)) r tt
  beside-Tells (some (err e)) r = (refl, inr (inl (e, refl)))

  -- Started with `run`, the process ends in success only as root, where the run ended by the signal and
  -- the server of the API did not fail before; it runs on only where both do; and otherwise it exits
  -- with 1: not as root, after a failure of the server, after an error of the run, or where ganesha
  -- died or the volume is unhealthy. It never panics.
  pub main-Tells :
      (net : Network) (r : Run) (root : Bool) (events : List Event) (w : W)
      → Tells
          (main m net (some (start r)) root events w)
          root
          (serve_api net r.api_listen)
          (run m (settings_of r) events (boot m (settings_of r) w)).0
  unfolding main into_settings
  main-Tells net r false events w = (refl, inl refl)
  main-Tells net r true events w =
      beside-Tells (serve_api net r.api_listen)
        (run m (settings_of r) events (boot m (settings_of r) w)).0

  beside_exited : (api : Option (Result String (Unit {0}))) → beside m api (exited 1) ≡ exited 1
  beside_exited none = refl
  beside_exited (some (ok _)) = refl
  beside_exited (some (err e)) = refl

-- On a system whose commands and processes are the fake's, with writable files: a process that is
-- started with `run` as root, whose settings are accepted, whose volume can be prepared and whose
-- ganesha can be spawned and lives for `n` polls, exits with 1 after `n + 1` ticks, whatever comes
-- later and whatever becomes of the server of its API.
pub main-died :
    {W : Type 0} (files : Machine W) (net : Network) (r : Run)
    → ((path text : String) (w : W) → (files.write_file path text w).0 ≡ ok tt)
    → (n : ℕ) (events : List Event) (dev : String) (w : World W) (s₁ : Session (Manager (World W)))
    → validate (settings_of r) ≡ ok tt
    → prepare_volume
        (fake_machine files)
        (settings_of r)
        (boot (fake_machine files) (settings_of r) w)
      ≡ (ok dev, s₁)
    → s₁.world.outside.fake.spawn_fails ≡ false
    → s₁.world.outside.fake.alive_polls ≡ n
    → n < usize_max
    → main (fake_machine files) net (some (start r)) true (replicate (suc n) tick ++ events) w
      ≡ exited 1
unfolding main into_settings
main-died files net r writable n events dev w s₁ valid prep spawns polls h =
    rw
      (run-ended files (settings_of r) writable n events dev
        (boot (fake_machine files) (settings_of r) w) s₁ valid prep spawns polls h)
      (beside_exited (fake_machine files) _)
