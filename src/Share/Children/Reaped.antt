-- ===== src/Share/Children/Reaped.antt =====
-- A run of a share-manager from its start to its end, with the drop of its handle.
use hcloud_csi_rwx.Prelude.{
  String, ◌≡◌, ◌≢◌, refl, Bool, true, false, Option, none, some, List, [], ◌∷◌, if◌then◌else◌, inl,
  inr, Bool-cases, Option-cases, arith,
}
use hcloud_csi_rwx.Kube.{Result, ok, err, Result-cases}
use hcloud_csi_rwx.Kube.Session.{Session, pure, fail, ◌>>=◌}
use hcloud_csi_rwx.Share.Children.{Reaps, Childless, Childless-Outside}
use hcloud_csi_rwx.Share.Outside.{prepare_volume-Keeps, unmount-Keeps}
use hcloud_csi_rwx.Share.Startup.{unmount-then}
use hcloud_csi_rwx.Share.Config.{render}
use hcloud_csi_rwx.Share.Machine.{Machine, Manager}
use hcloud_csi_rwx.Share.Manager.{
  Settings, Event, tick, shutdown, ExitReason, validate, prepare_volume, start_ganesha, health_tick,
  health_loop, mark_ready, share_endpoint, serve, started, prepared, run, export_config,
  config_path, ganesha_args,
}

module _ {W : Type 0} (m : Machine W) where
  -- `Drop for Ganesha`
  abbrev pub drop_ganesha : Manager W → Manager W
  drop_ganesha w =
      if w.child then record w { child = false; outside = m.start_kill w.outside } else w

  health_tick-child : (cfg : Settings) (w : Manager W) → (health_tick m cfg w).1.child ≡ w.child
  unfolding health_tick
  health_tick-child cfg w = ground arith

  health_loop-child :
      (cfg : Settings) (events : List Event) (w : Manager W)
      → (health_loop m cfg events w).1.child ≡ w.child
  unfolding health_loop
  health_loop-child cfg [] w = refl
  health_loop-child cfg (shutdown ∷ events) w = refl
  health_loop-child cfg (tick ∷ events) w = elim (Option-cases (health_tick m cfg w).0) [
    | inl e ↦
        rw (health_loop, e, health_loop-child cfg events (health_tick m cfg w).1)
          (health_tick-child cfg w)
    | inr (reason, e) ↦ rw (health_loop, e) (health_tick-child cfg w)
  ]

module _ {W : Type 0} (m : Machine W) (live : W → Bool) (reaps : Reaps m live)
    (cfg : Settings) where
  -- What is left of a run: where it ended no child runs, and otherwise none does once it is dropped.
  abbrev pub Reaped : Result String (Option ExitReason) → Manager W → Type 0
  Reaped r w = (r ≢ ok none → live w.outside ≡ false) × (live (drop_ganesha m w).outside ≡ false)

  Childless-Reaped :
      (r : Result String (Option ExitReason)) (w : Manager W) → live w.outside ≡ false → Reaped r w
  Childless-Reaped r w h = elim (Bool-cases w.child) [
    | inl y ↦ ((λ _. h), rw y (reaps.start_kill w.outside))
    | inr n ↦ ((λ _. h), rw n h)
  ]

  serve-Reaped :
      (events : List Event) (s : Session (Manager W))
      → s.world.child ≡ true
      → Reaped (serve m cfg events s).0 (serve m cfg events s).1.world
  unfolding serve ◌>>=◌
  serve-Reaped events s h =
      let ready = record s.world { state = mark_ready (share_endpoint cfg) s.world.state } in
      let child : (health_loop m cfg events ready).1.child ≡ true =
        rw (health_loop-child m cfg events ready) h in
      elim (Option-cases (health_loop m cfg events ready).0) [
        | inl n ↦ rw (n, child) ((λ e. absurd (e refl)), reaps.start_kill _)
        | inr (r, n) ↦
            rw (n, child, unmount-then m cfg cfg.skip_mount (pure (some r)))
              (Childless-Reaped _ _ (
                (unmount-Keeps m (Childless live) (Childless-Outside m live reaps) cfg
                    cfg.skip_mount).at
                  _ (reaps.wait_child 5 _ (reaps.start_kill _))))
      ]

  -- Ganesha did not start.
  not_started-Reaped :
      (events : List Event) (e : String) (s : Session (Manager W))
      → live s.world.outside ≡ false
      → Reaped (started m cfg events (err e) s).0 (started m cfg events (err e) s).1.world
  unfolding started fail ◌>>=◌
  not_started-Reaped events e s h =
      rw (unmount-then m cfg cfg.skip_mount (fail {A = Option ExitReason} e)) (
        Childless-Reaped _ _ (
          (unmount-Keeps m (Childless live) (Childless-Outside m live reaps) cfg cfg.skip_mount).at
            _ h))

  -- After `start`: the handle holds the child, or there is none.
  abbrev Start : Result String (Unit {0}) → Manager W → Type 0
  Start (ok _) w = w.child ≡ true
  Start (err e) w = live w.outside ≡ false

  start_ganesha-Start :
      (s : Session (Manager W))
      → live s.world.outside ≡ false
      → Start (start_ganesha m cfg s).0 (start_ganesha m cfg s).1.world
  unfolding start_ganesha ◌>>=◌
  start_ganesha-Start s h =
      let text = render (export_config cfg) in
      let written = reaps.write_file (config_path m cfg) text s.world.outside h in
      let w = (m.write_file (config_path m cfg) text s.world.outside).1 in
      elim (Result-cases (m.write_file (config_path m cfg) text s.world.outside).0) [
        | inl (e, wr) ↦ rw wr written
        | inr (_, wr) ↦ elim (Result-cases (m.spawn "ganesha.nfsd" (ganesha_args m cfg) w).0) [
          | inl (e, sp) ↦ rw (wr, sp) (reaps.spawn_failed "ganesha.nfsd" _ w e sp written)
          | inr (_, sp) ↦ rw (wr, sp) refl
        ]
      ]

  started-Reaped :
      (events : List Event) (r : Result String (Unit {0})) (s : Session (Manager W))
      → Start r s.world
      → Reaped (started m cfg events r s).0 (started m cfg events r s).1.world
  started-Reaped events (ok _) s h = unfold started in serve-Reaped events s h
  started-Reaped events (err e) s h = not_started-Reaped events e s h

  -- On a system that reaps its children, where no child runs before: along any events, no child runs
  -- after a run that ended, in success or with an error at any step, and none does after one that is
  -- dropped while its health loop still runs.
  pub run-Reaped :
      (events : List Event) (s : Session (Manager W))
      → live s.world.outside ≡ false
      → Reaped (run m cfg events s).0 (run m cfg events s).1.world
  unfolding run prepared ◌>>=◌
  run-Reaped events s h = elim (Result-cases (validate cfg)) [
    | inl (e, v) ↦ rw v (Childless-Reaped _ _ h)
    | inr (u, v) ↦
        let kept =
          (prepare_volume-Keeps m (Childless live) (Childless-Outside m live reaps) cfg).at s h in
        elim (Result-cases (prepare_volume m cfg s).0) [
          | inl (e, p) ↦ rw (v, p) (Childless-Reaped _ _ kept)
          | inr (dev, p) ↦
              rw (v, p)
                (started-Reaped events _ _
                  (start_ganesha-Start _ (reaps.create_dir_all cfg.ganesha_dir _ kept)))
        ]
  ]
