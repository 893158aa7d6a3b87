-- ===== src/Share/Health.antt =====
-- What a share-manager shows when its health loop ends.
use hcloud_csi_rwx.Prelude.{
  ◌≡◌, refl, false, Option, none, some, List, [], ◌∷◌, if◌then◌else◌, Option-cases, inl, inr, arith,
}
use hcloud_csi_rwx.Share.Api.{ShareState}
use hcloud_csi_rwx.Share.Machine.{Machine, Manager}
use hcloud_csi_rwx.Share.Manager.{
  Settings, Event, tick, shutdown, ExitReason, signal, ganesha_died, volume_unhealthy, is_clean,
  reason_message, set_error, health_tick, health_loop,
}

-- The state that is shown after the loop: a reason that is not clean is shown as the error.
abbrev pub shown : Option ExitReason → ShareState → ShareState
shown none s = s
shown (some reason) s = if is_clean reason then s else set_error (reason_message reason) s

module _ {W : Type 0} (m : Machine W) (cfg : Settings) where
  health_tick-state : (w : Manager W) → (health_tick m cfg w).1.state ≡ w.state
  unfolding health_tick
  health_tick-state w = ground arith

  -- A tick never ends in a clean reason.
  health_tick-reason :
      (w : Manager W) (reason : ExitReason)
      → (health_tick m cfg w).0 ≡ some reason
      → is_clean reason ≡ false
  unfolding health_tick
  health_tick-reason w signal h = ground (arith, h)
  health_tick-reason w ganesha_died h = refl
  health_tick-reason w volume_unhealthy h = refl

  -- Along any events, the health loop changes the state that the API shows only where it ends because
  -- ganesha died or the volume is unhealthy, and then to not ready with the message of that reason.
  pub health_loop-shown :
      (events : List Event) (w : Manager W)
      → (health_loop m cfg events w).1.state ≡ shown (health_loop m cfg events w).0 w.state
  unfolding health_loop
  health_loop-shown [] w = refl
  health_loop-shown (shutdown ∷ events) w = refl
  health_loop-shown (tick ∷ events) w = elim (Option-cases (health_tick m cfg w).0) [
    | inl e ↦
        rw (health_loop, e, health_loop-shown events (health_tick m cfg w).1, health_tick-state w)
          refl
    | inr (reason, e) ↦ rw (health_loop, e, health_tick-reason w reason e, health_tick-state w) refl
  ]
