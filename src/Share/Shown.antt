-- ===== src/Share/Shown.antt =====
-- What the API of a share-manager shows after any run of it, and so at any moment of its health loop.
use hcloud_csi_rwx.Prelude.{
  String, ◌≡◌, refl, ap, ◌∙◌, Bool, true, false, Option, none, some, List, if◌then◌else◌, inl, inr,
  Option-cases, arith,
}
use hcloud_csi_rwx.Kube.{Result, ok, err, Result-cases}
use hcloud_csi_rwx.Kube.Session.{Session, pure, fail, ◌>>=◌}
use hcloud_csi_rwx.Share.Outside.{Outside, unmount-Keeps}
use hcloud_csi_rwx.Share.Api.{ShareState}
use hcloud_csi_rwx.Share.Health.{shown, health_loop-shown}
use hcloud_csi_rwx.Share.Startup.{unmount-then}
use hcloud_csi_rwx.Share.Machine.{Machine, Manager}
use hcloud_csi_rwx.Share.Manager.{
  Settings, Event, ExitReason, signal, ganesha_died, volume_unhealthy, is_clean, validate,
  prepare_volume, health_loop, mark_ready, set_error, unmount_unless_skipped, share_endpoint, serve,
  started, prepared, run,
}

-- The share is served where its run goes on, and where it was told to end.
abbrev pub serves : Result String (Option ExitReason) → Bool
serves (ok none) = true
serves (ok (some reason)) = is_clean reason
serves (err e) = false

module _ {W : Type 0} (m : Machine W) (cfg : Settings) where
  -- The shown state is the one of the answer.
  abbrev pub Shows : Result String (Option ExitReason) → ShareState → Type 0
  Shows r st = (st.ready ≡ serves r) × (serves r ≡ true → st.endpoint ≡ some (share_endpoint cfg))

  Shows-shown :
      (o : Option ExitReason) (st : ShareState)
      → Shows (ok o) (shown o (mark_ready (share_endpoint cfg) st))
  Shows-shown none st = (refl, λ _. refl)
  Shows-shown (some signal) st = (refl, λ _. refl)
  Shows-shown (some ganesha_died) st = (refl, λ _. refl)
  Shows-shown (some volume_unhealthy) st = (refl, λ _. refl)

  -- The steps outside leave the shown state alone.
  State-Outside : (P : ShareState → Type 0) → Outside m (λ w. P w.state)
  State-Outside P = record {
    run = λ p args w i. i;
    try_exists = λ p w i. i;
    canonicalize = λ p w i. i;
    create_dir_all = λ p w i. i;
    sleep = λ w i. i;
  }

  unmount-state :
      (P : ShareState → Type 0) (s : Session (Manager W))
      → P s.world.state
      → P (unmount_unless_skipped m cfg {E = String} cfg.skip_mount s).1.world.state
  unmount-state P s i =
      (unmount-Keeps m (λ w. P w.state) (State-Outside P) cfg cfg.skip_mount).at s i

  Shows-of :
      (o : Option ExitReason) (s₀ st : ShareState)
      → st ≡ shown o (mark_ready (share_endpoint cfg) s₀)
      → Shows (ok o) st
  Shows-of o s₀ st e = rw e (Shows-shown o s₀)

  stopped-state :
      (w : Manager W)
      → (if w.child
          then record w { child = false; outside = (m.wait_child 5 (m.start_kill w.outside)).1 }
          else w).state
        ≡ w.state
  stopped-state w = ground arith

  serve-Shows :
      (events : List Event) (s : Session (Manager W))
      → Shows (serve m cfg events s).0 (serve m cfg events s).1.world.state
  unfolding serve ◌>>=◌
  serve-Shows events s =
      let ready = record s.world { state = mark_ready (share_endpoint cfg) s.world.state } in
      let kept = health_loop-shown m cfg events ready in
      elim (Option-cases (health_loop m cfg events ready).0) [
        | inl n ↦ rw n (Shows-of none s.world.state _ (kept ∙ ap (λ o. shown o ready.state) n))
        | inr (r, n) ↦
            rw (n, unmount-then m cfg cfg.skip_mount (pure (some r)))
              (Shows-of (some r) s.world.state _ (
                unmount-state (λ st. st ≡ shown (some r) ready.state) _
                  (stopped-state (health_loop m cfg events ready).1
                    ∙ (kept ∙ ap (λ o. shown o ready.state) n))))
      ]

  started-Shows :
      (events : List Event) (r : Result String (Unit {0})) (s : Session (Manager W))
      → Shows (started m cfg events r s).0 (started m cfg events r s).1.world.state
  unfolding started fail ◌>>=◌
  started-Shows events (ok _) s = serve-Shows events s
  started-Shows events (err e) s =
      let failed = record s { world = record s.world { state = set_error e s.world.state } } in
      rw (unmount-then m cfg cfg.skip_mount (fail {A = Option ExitReason} e))
        (unmount-state (λ st. st.ready ≡ false) failed refl, (λ h. cc h))

  -- Where nothing is shown as ready before a run, then after it, along any events, the API shows the
  -- share as ready exactly where the run still goes on or was told to end, and with the endpoint of
  -- the settings; after any error, or a ganesha or a volume that failed, it does not.
  pub run-Shows :
      (events : List Event) (s : Session (Manager W))
      → s.world.state.ready ≡ false
      → Shows (run m cfg events s).0 (run m cfg events s).1.world.state
  unfolding run prepared ◌>>=◌
  run-Shows events s h = elim (Result-cases (validate cfg)) [
    | inl (e, v) ↦ rw v (h, (λ n. cc n))
    | inr (u, v) ↦ elim (Result-cases (prepare_volume m cfg s).0) [
      | inl (e, p) ↦ rw (v, p) (refl, (λ n. cc n))
      | inr (dev, p) ↦ rw (v, p) (started-Shows events _ _)
    ]
  ]
