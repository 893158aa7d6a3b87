-- ===== src/Share/Children.antt =====
-- Whether a share-manager leaves a ganesha behind that nobody kills: `stop` of src/nfs.rs along `run`,
-- and its `Drop`, which is what happens to a run that is given up.
pub mod Reaped
use hcloud_csi_rwx.Prelude.{
  String, ◌≡◌, ◌≢◌, refl, Bool, true, false, Option, none, some, List, [], ◌∷◌, if◌then◌else◌, inl,
  inr, Bool-cases, Option-cases, ℕ, zero, suc, format,
}
use hcloud_csi_rwx.Kube.{Result, ok, err, Result-cases}
use hcloud_csi_rwx.Kube.Keeps.{
  Keeps, Keeps-bind, Keeps-pure, Keeps-fail, Keeps-attempt, Keeps-if, Keeps-map_err,
}
use hcloud_csi_rwx.Kube.Session.{Session, Try, Call, pure, ◌>>=◌, ◌>>◌}
use hcloud_csi_rwx.Share.Startup.{unmount-then}
use hcloud_csi_rwx.Share.Machine.{ExecError, Outcome, Machine, Manager, ask, request, update}
use hcloud_csi_rwx.Share.Block.{
  run_program, wait_for_device, make_filesystem, ensure_filesystem, mount_device, unmount_device,
  set_export_mode, has_filesystem, health_check,
}
use hcloud_csi_rwx.Share.Manager.{
  Settings, Event, tick, shutdown, ExitReason, validate, prepare_device, prepare_volume,
  start_ganesha, health_tick, health_loop, unmount_unless_skipped, mark_ready, share_endpoint,
  serve, started, prepared, run,
}
use hcloud_csi_rwx.Share.Outside.{Outside}

-- What is asked of the system: only a spawn that succeeds makes a child run, and a child that was told
-- to end counts as one that does not run.
pub record Reaps {W : Type 0} (m : Machine W) (live : W → Bool) : Type 0 where
  pub run :
      (p : String) (args : List String) (w : W) → live w ≡ false → live (m.run p args w).1 ≡ false
  pub try_exists : (p : String) (w : W) → live w ≡ false → live (m.try_exists p w).1 ≡ false
  pub canonicalize : (p : String) (w : W) → live w ≡ false → live (m.canonicalize p w).1 ≡ false
  pub create_dir_all : (p : String) (w : W) → live w ≡ false → live (m.create_dir_all p w).1 ≡ false
  pub write_file : (p t : String) (w : W) → live w ≡ false → live (m.write_file p t w).1 ≡ false
  pub sleep : (w : W) → live w ≡ false → live (m.sleep w) ≡ false
  pub spawn_failed :
      (p : String) (args : List String) (w : W) (e : ExecError)
      → (m.spawn p args w).0 ≡ err e
      → live w ≡ false
      → live (m.spawn p args w).1 ≡ false
  pub wait_child : (secs : ℕ) (w : W) → live w ≡ false → live (m.wait_child secs w).1 ≡ false
  pub start_kill : (w : W) → live (m.start_kill w) ≡ false

-- No child runs.
abbrev pub Childless : {W : Type 0} → (W → Bool) → Manager W → Type 0
Childless live w = live w.outside ≡ false

pub Childless-Outside :
    {W : Type 0} (m : Machine W) (live : W → Bool) → Reaps m live → Outside m (Childless live)
Childless-Outside m live r = record {
  run = λ p args w. r.run p args w.outside;
  try_exists = λ p w. r.try_exists p w.outside;
  canonicalize = λ p w. r.canonicalize p w.outside;
  create_dir_all = λ p w. r.create_dir_all p w.outside;
  sleep = λ w. r.sleep w.outside;
}
