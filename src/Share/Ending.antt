-- ===== src/Share/Ending.antt =====
-- How a share-manager ends whose ganesha lives for a number of polls: the fake of src/exec.rs in the
-- place of the system.
use hcloud_csi_rwx.Prelude.{
  ℕ, suc, ◌<◌, ◌≡◌, refl, String, true, false, none, some, arith, List, replicate, ◌++◌, zero,
}
use hcloud_csi_rwx.Kube.{ok}
use hcloud_csi_rwx.Exec.Fake.{World, usize_max, fake_machine, child_is_running, fake_spawn}
use hcloud_csi_rwx.Share.Machine.{Machine, Manager}
use hcloud_csi_rwx.Share.Block.{health_check}
use hcloud_csi_rwx.Share.Manager.{
  Settings, ganesha_died, health_tick, start_ganesha, health_loop, Event, tick, prepared, validate,
  prepare_volume, run, started, serve, mark_ready, share_endpoint,
}
use hcloud_csi_rwx.Kube.Session.{Session, ◌>>=◌, pure}
use hcloud_csi_rwx.Share.Startup.{unmount-then}

-- The child of the fake after one poll.
polled_once :
    (n : ℕ)
    → suc n < usize_max
    → child_is_running (record { remaining = suc n; killed = false })
      ≡ (true, record { remaining = n; killed = false })
unfolding child_is_running
polled_once n h = ground (arith, h)

module _ {W : Type 0} (files : Machine W) (cfg : Settings)
    (writable : (path text : String) (w : W) → (files.write_file path text w).0 ≡ ok tt) where
  -- A manager that has a child which is alive for `n` polls.
  abbrev pub LivesFor : ℕ → Manager (World W) → Type 0
  LivesFor n w =
      (w.child ≡ true) × (w.outside.child ≡ some (record { remaining = n; killed = false }))

  health_tick-dead :
      (w : Manager (World W))
      → LivesFor 0 w
      → (health_tick (fake_machine files) cfg w).0 ≡ some ganesha_died
  unfolding health_tick fake_machine child_is_running
  health_tick-dead w (c, l) = rw (c, l) refl

  health_tick-alive :
      (n : ℕ) (w : Manager (World W))
      → suc n < usize_max
      → LivesFor (suc n) w
      → ((health_tick (fake_machine files) cfg w).0 ≡ none)
        × LivesFor n (health_tick (fake_machine files) cfg w).1
  unfolding health_tick fake_machine health_check
  health_tick-alive n w h (c, l) = rw (c, l, polled_once n h, writable) (refl, (refl, refl))

  -- Ganesha is alive for the first `n` ticks, and the loop ends with the next one.
  pub health_loop-LivesFor :
      (n : ℕ) (events : List Event) (w : Manager (World W))
      → n < usize_max
      → LivesFor n w
      → ((health_loop (fake_machine files) cfg (replicate n tick) w).0 ≡ none)
        × ((health_loop (fake_machine files) cfg (replicate (suc n) tick ++ events) w).0
            ≡ some ganesha_died)
  unfolding health_loop
  health_loop-LivesFor zero events w h l = (refl, rw (health_loop, health_tick-dead w l) refl)
  health_loop-LivesFor (suc n) events w h l =
      let (alive, left) = health_tick-alive n w h l in
      let rest =
        health_loop-LivesFor n events (health_tick (fake_machine files) cfg w).1 (omega (arith, h))
          left in
      (rw (health_loop, alive) rest.0, rw (health_loop, alive) rest.1)

  start_ganesha-LivesFor :
      (n : ℕ) (s : Session (Manager (World W)))
      → s.world.outside.fake.spawn_fails ≡ false
      → s.world.outside.fake.alive_polls ≡ n
      → ((start_ganesha (fake_machine files) cfg s).0 ≡ ok tt)
        × LivesFor n (start_ganesha (fake_machine files) cfg s).1.world
  unfolding start_ganesha fake_machine fake_spawn ◌>>=◌
  start_ganesha-LivesFor n s h e = rw (writable, h, e) (refl, (refl, refl))

  serve-ended :
      (n : ℕ) (events : List Event) (s : Session (Manager (World W)))
      → n < usize_max
      → LivesFor n s.world
      → (serve (fake_machine files) cfg (replicate (suc n) tick ++ events) s).0
        ≡ ok (some ganesha_died)
  unfolding serve ◌>>=◌
  serve-ended n events s h l =
      let ready = record s.world { state = mark_ready (share_endpoint cfg) s.world.state } in
      rw
        (
          (health_loop-LivesFor n events ready h l).1,
          unmount-then (fake_machine files) cfg cfg.skip_mount (pure (some ganesha_died)),
        )
        refl

  abbrev made_dir : Session (Manager (World W)) → Session (Manager (World W))
  made_dir s = record s {
    world = record s.world {
      outside = ((fake_machine files).create_dir_all cfg.ganesha_dir s.world.outside).1;
    };
  }

  -- On a system whose commands and processes are the fake's, with writable files: where the settings
  -- are accepted, the volume is prepared, spawning works and ganesha lives for `n` polls, the run ends
  -- after `n + 1` ticks, whatever comes later, because ganesha died.
  pub run-ended :
      (n : ℕ) (events : List Event) (dev : String) (s s₁ : Session (Manager (World W)))
      → validate cfg ≡ ok tt
      → prepare_volume (fake_machine files) cfg s ≡ (ok dev, s₁)
      → s₁.world.outside.fake.spawn_fails ≡ false
      → s₁.world.outside.fake.alive_polls ≡ n
      → n < usize_max
      → (run (fake_machine files) cfg (replicate (suc n) tick ++ events) s).0
        ≡ ok (some ganesha_died)
  unfolding run prepared started fake_machine ◌>>=◌
  run-ended n events dev s s₁ valid prep spawns polls h =
      let (started_ok, lives) = start_ganesha-LivesFor n (made_dir s₁) spawns polls in
      rw (valid, prep, started_ok)
        (serve-ended n events (start_ganesha (fake_machine files) cfg (made_dir s₁)).1 h lives)
