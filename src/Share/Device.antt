-- ===== src/Share/Device.antt =====
-- Which commands a share-manager runs on the device of its volume: none where the volume is mounted
-- already, and otherwise an unmount at the end of each run that mounted it.
use hcloud_csi_rwx.Prelude.{
  String, ◌≡◌, ◌≢◌, refl, Bool, true, false, not, Option, none, some, List, [], ◌∷◌, str_eq, inl,
  inr, Option-cases,
}
use hcloud_csi_rwx.Kube.{Result, ok, err, Result-cases}
use hcloud_csi_rwx.Kube.Session.{Session, Call, exec, pure, fail, ◌>>=◌}
use hcloud_csi_rwx.Kube.Avoids.{
  count, Avoids, Avoids-pure, Avoids-fail, Avoids-lift, Avoids-attempt, Avoids-bind, Avoids-map_err,
}
use hcloud_csi_rwx.Share.Machine.{Machine, Manager, ask, request, update}
use hcloud_csi_rwx.Share.Startup.{unmount-then}
use hcloud_csi_rwx.Share.Block.{set_export_mode, unmount_device}
use hcloud_csi_rwx.Share.Manager.{
  Settings, Event, ExitReason, validate, prepare_device, prepare_volume, start_ganesha, health_loop,
  unmount_unless_skipped, mark_ready, share_endpoint, serve, started, prepared, run,
}

-- A command that is not the `chmod` of the export: `blkid`, `mkfs.ext4`, `mount` or `umount`.
abbrev pub on_device : Call → Bool
on_device (exec program args) = not (str_eq program "chmod")
on_device _ = false

module _ {W : Type 0} (m : Machine W) (cfg : Settings) where
  Avoids-ask : {E A : Type 0} (f : W → Result E A × W) → Avoids on_device (ask f)
  Avoids-ask f = record { at = λ s. refl }

  Avoids-request :
      {E A : Type 0} (c : Call) (f : W → Result E A × W)
      → on_device c ≡ false
      → Avoids on_device (request c f)
  Avoids-request c f e = record { at = λ s. rw e }

  Avoids-update : {E : Type 0} (f : Manager W → Manager W) → Avoids on_device (update {E = E} f)
  Avoids-update f = record { at = λ s. refl }

  prepare-Avoids : (skip : Bool) → skip ≡ true → Avoids on_device (prepare_device m cfg skip)
  unfolding prepare_device
  prepare-Avoids true e = Avoids-pure _
  prepare-Avoids false e = cc e

  unmount-Avoids :
      {E : Type 0} (skip : Bool)
      → skip ≡ true
      → Avoids on_device (unmount_unless_skipped m cfg {E = E} skip)
  unmount-Avoids true e = Avoids-pure tt
  unmount-Avoids false e = cc e

  start_ganesha-Avoids : Avoids on_device (start_ganesha m cfg)
  unfolding start_ganesha
  start_ganesha-Avoids =
      Avoids-bind _ _ (Avoids-request _ _ refl)
        λ _. Avoids-bind _ _ (Avoids-map_err _ _ (Avoids-request _ _ refl)) λ _. Avoids-update _

  module _ (skips : cfg.skip_mount ≡ true) where
    prepare_volume-Avoids : Avoids on_device (prepare_volume m cfg)
    unfolding prepare_volume set_export_mode
    prepare_volume-Avoids = Avoids-bind _ _ (prepare-Avoids cfg.skip_mount skips) λ dev.
        Avoids-bind _ _
          (Avoids-bind _ _ (Avoids-attempt _ (Avoids-map_err _ _ (Avoids-request _ _ refl)))
            λ _. Avoids-pure tt)
          λ _. Avoids-pure dev

    serve-Avoids : (events : List Event) → Avoids on_device (serve m cfg events)
    unfolding serve ◌>>=◌
    serve-Avoids events = record {
      at = λ s.
          let ready = record s.world { state = mark_ready (share_endpoint cfg) s.world.state } in
          elim (Option-cases (health_loop m cfg events ready).0) [
            | inl n ↦ rw n refl
            | inr (r, n) ↦
                rw (n, unmount-then m cfg cfg.skip_mount (pure (some r)))
                  ((unmount-Avoids {E = String} cfg.skip_mount skips).at _)
          ];
    }

    started-Avoids :
        (events : List Event) (r : Result String (Unit {0}))
        → Avoids on_device (started m cfg events r)
    unfolding started
    started-Avoids events (ok _) = serve-Avoids events
    started-Avoids events (err e) =
        Avoids-bind _ _ (Avoids-update _)
          λ _. Avoids-bind _ _ (unmount-Avoids cfg.skip_mount skips) λ _. Avoids-fail e

    prepared-Avoids :
        (events : List Event) (r : Result String String)
        → Avoids on_device (prepared m cfg events r)
    unfolding prepared
    prepared-Avoids events (ok dev) =
        Avoids-bind _ _ (Avoids-ask _)
          λ _. Avoids-bind _ _ (Avoids-attempt _ start_ganesha-Avoids) λ r. started-Avoids events r
    prepared-Avoids events (err e) = Avoids-bind _ _ (Avoids-update _) λ _. Avoids-fail e

    -- A share-manager that is told that its volume is mounted already runs no command on a device,
    -- along any events and however its run goes: it does not probe, format, mount or unmount.
    pub run-on_device :
        (events : List Event) (s : Session (Manager W))
        → count on_device (run m cfg events s).1.calls ≡ count on_device s.calls
    unfolding run
    run-on_device events s =
        (Avoids-bind _ _ (Avoids-lift (validate cfg)) λ _.
            Avoids-bind _ _ (Avoids-attempt _ prepare_volume-Avoids)
              λ r. prepared-Avoids events r).at
          s

  module _ (mounts : cfg.skip_mount ≡ false) where
    -- The last request of a session is the unmount of the volume.
    abbrev pub Unmounted : Session (Manager W) → Type 0
    Unmounted s = (earlier : List Call) × (s.calls ≡ exec "umount" (cfg.mount_point ∷ []) ∷ earlier)

    unmount-Unmounted :
        (skip : Bool) (s : Session (Manager W))
        → skip ≡ false
        → Unmounted (unmount_unless_skipped m cfg {E = String} skip s).1
    unfolding unmount_device ◌>>=◌
    unmount-Unmounted true s e = cc e
    unmount-Unmounted false s e =
        elim (Result-cases (m.run "umount" (cfg.mount_point ∷ []) s.world.outside).0) [
          | inl (_, h) ↦ rw h (s.calls, refl)
          | inr (_, h) ↦ rw h (s.calls, refl)
        ]

    serve-Unmounted :
        (events : List Event) (s : Session (Manager W))
        → (serve m cfg events s).0 ≢ ok none
        → Unmounted (serve m cfg events s).1
    unfolding serve ◌>>=◌
    serve-Unmounted events s ends =
        let ready = record s.world { state = mark_ready (share_endpoint cfg) s.world.state } in
        elim (Option-cases (health_loop m cfg events ready).0) [
          | inl n ↦ absurd (ends (rw n refl))
          | inr (r, n) ↦
              rw (n, unmount-then m cfg cfg.skip_mount (pure (some r)))
                (unmount-Unmounted cfg.skip_mount _ mounts)
        ]

    started-Unmounted :
        (events : List Event) (r : Result String (Unit {0})) (s : Session (Manager W))
        → (started m cfg events r s).0 ≢ ok none
        → Unmounted (started m cfg events r s).1
    unfolding started fail ◌>>=◌
    started-Unmounted events (ok _) s ends = serve-Unmounted events s ends
    started-Unmounted events (err e) s ends =
        rw (unmount-then m cfg cfg.skip_mount (fail {A = Option ExitReason} e))
          (unmount-Unmounted cfg.skip_mount _ mounts)

    -- A run that mounted its volume, and that ended, in any way, has asked for the unmount of its mount
    -- point as the last thing.
    pub run-Unmounted :
        (events : List Event) (dev : String) (s s₁ : Session (Manager W))
        → validate cfg ≡ ok tt
        → prepare_volume m cfg s ≡ (ok dev, s₁)
        → (run m cfg events s).0 ≢ ok none
        → Unmounted (run m cfg events s).1
    unfolding run prepared ◌>>=◌
    run-Unmounted events dev s s₁ valid prep ends =
        rw (valid, prep) (started-Unmounted events _ _ (rw (valid, prep) at ends))
