-- ===== src/Share/Startup.antt =====
-- How the start of a share-manager fails, and when it formats the device.
use hcloud_csi_rwx.Prelude.{
  ◌≢◌, Option-cases, String, ◌≡◌, refl, Bool, true, false, Option, some, List, [], ◌∷◌,
  if◌then◌else◌, inl, inr, Bool-cases,
}
use hcloud_csi_rwx.Kube.{Result, ok, err, Result-cases}
use hcloud_csi_rwx.Kube.Session.{pure, Try, ◌>>◌, fail, Session, exec, ◌>>=◌}
use hcloud_csi_rwx.Share.Machine.{Outcome, ExecError, Machine, Manager}
use hcloud_csi_rwx.Share.Block.{ensure_filesystem, make_filesystem, has_filesystem, unmount_device}
use hcloud_csi_rwx.Share.Manager.{
  mark_ready, share_endpoint, unmount_unless_skipped, Settings, Event, ExitReason, validate, run,
  prepare_volume, started, prepared, serve, health_loop,
}

module _ {W : Type 0} (m : Machine W) where
  abbrev pub probe : String → Manager W → Result ExecError Outcome
  probe device w = (m.run "blkid" ("-c" ∷ "/dev/null" ∷ device ∷ []) w.outside).0

  make_filesystem-calls :
      (device : String) (s : Session (Manager W))
      → (make_filesystem m device s).1.calls ≡ exec "mkfs.ext4" ("-F" ∷ device ∷ []) ∷ s.calls
  unfolding make_filesystem ◌>>=◌
  make_filesystem-calls device s =
      elim (Result-cases (m.run "mkfs.ext4" ("-F" ∷ device ∷ []) s.world.outside).0) [
        | inl (e, h) ↦ rw h refl
        | inr (o, h) ↦ elim (Bool-cases o.success) [
          | inl y ↦ rw (h, y) refl
          | inr n ↦ rw (h, n) refl
        ]
      ]

  -- `mkfs.ext4` is run on the device exactly where `blkid` did not run and succeed on it, and nothing
  -- else is run.
  pub ensure_filesystem-exact :
      (device : String) (s : Session (Manager W))
      → (ensure_filesystem m device s).1.calls ≡ (
          if has_filesystem m (probe device s.world)
          then exec "blkid" ("-c" ∷ "/dev/null" ∷ device ∷ []) ∷ s.calls
          else exec "mkfs.ext4" ("-F" ∷ device ∷ [])
            ∷ exec "blkid" ("-c" ∷ "/dev/null" ∷ device ∷ [])
            ∷ s.calls)
  unfolding ensure_filesystem ◌>>=◌
  ensure_filesystem-exact device s = elim (Result-cases (probe device s.world)) [
    | inl (e, h) ↦ rw h (make_filesystem-calls device _)
    | inr (o, h) ↦ elim (Bool-cases o.success) [
      | inl y ↦ rw (h, y) refl
      | inr n ↦ rw (h, n) (make_filesystem-calls device _)
    ]
  ]

  module _ (cfg : Settings) where
    -- The state of a share-manager that failed with an error.
    abbrev pub Failed : String → Manager W → Type 0
    Failed e w = (w.state.ready ≡ false) × (w.state.error ≡ some e)

    unmount-state :
        (skip : Bool) (s : Session (Manager W))
        → (unmount_unless_skipped m cfg {E = String} skip s).1.world.state ≡ s.world.state
    unfolding unmount_device ◌>>=◌
    unmount-state true s = refl
    unmount-state false s =
        elim (Result-cases (m.run "umount" (cfg.mount_point ∷ []) s.world.outside).0) [
          | inl (e, h) ↦ rw h refl
          | inr (o, h) ↦ rw h refl
        ]

    pub unmount-then :
        {A : Type 0} (skip : Bool) (k : Try (Manager W) String A) (s : Session (Manager W))
        → (unmount_unless_skipped m cfg skip >> k) s
          ≡ k (unmount_unless_skipped m cfg {E = String} skip s).1
    unfolding unmount_device ◌>>=◌
    unmount-then true k s = refl
    unmount-then false k s = refl

    serve-answer :
        (events : List Event) (e : String) (s : Session (Manager W))
        → (serve m cfg events s).0 ≢ err e
    unfolding serve ◌>>=◌
    serve-answer events e s h =
        let ready = record s.world { state = mark_ready (share_endpoint cfg) s.world.state } in
        elim (Option-cases (health_loop m cfg events ready).0) [
          | inl n ↦ cc (rw n at h)
          | inr (r, n) ↦ cc (rw (n, unmount-then cfg.skip_mount (pure (some r))) at h)
        ]

    started-err :
        (events : List Event) (r : Result String (Unit {0})) (e : String) (s : Session (Manager W))
        → (started m cfg events r s).0 ≡ err e
        → Failed e (started m cfg events r s).1.world
    unfolding started fail ◌>>=◌
    started-err events (err e') e s h =
        let same : e' ≡ e =
          cc (rw (unmount-then cfg.skip_mount (fail {A = Option ExitReason} e')) at h) in
        rw (unmount-then cfg.skip_mount (fail {A = Option ExitReason} e'))
          (rw (unmount-state, same) (refl, refl))
    started-err events (ok _) e s h = absurd (serve-answer events e s h)

    -- Where a share-manager accepts its settings and its run ends in an error, it shows that error
    -- and is not ready, whichever step failed.
    pub run-Failed :
        (events : List Event) (e : String) (s : Session (Manager W))
        → validate cfg ≡ ok tt
        → (run m cfg events s).0 ≡ err e
        → Failed e (run m cfg events s).1.world
    unfolding run prepared fail ◌>>=◌
    run-Failed events e s valid h = elim (Result-cases (prepare_volume m cfg s).0) [
      | inl (e', p) ↦
          let same : e' ≡ e = cc (rw (valid, p) at h) in rw (valid, p, same) (refl, refl)
      | inr (d, p) ↦ rw (valid, p) (started-err events _ e _ (rw (valid, p) at h))
    ]
