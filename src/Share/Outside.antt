-- ===== src/Share/Outside.antt =====
-- What the preparation of the volume and its unmounting leave as it is: one rule for each step of
-- src/block.rs, from the rules for the steps outside.
use hcloud_csi_rwx.Prelude.{String, Bool, true, false, List, ℕ, zero, suc}
use hcloud_csi_rwx.Kube.{Result, ok}
use hcloud_csi_rwx.Kube.Keeps.{
  Keeps, Keeps-bind, Keeps-pure, Keeps-fail, Keeps-attempt, Keeps-if, Keeps-map_err,
}
use hcloud_csi_rwx.Kube.Session.{Call}
use hcloud_csi_rwx.Share.Machine.{ExecError, Machine, Manager, ask, request}
use hcloud_csi_rwx.Share.Block.{
  run_program, wait_for_device, ensure_filesystem, mount_device, unmount_device, set_export_mode,
  has_filesystem,
}
use hcloud_csi_rwx.Share.Manager.{Settings, prepare_device, prepare_volume, unmount_unless_skipped}

-- What the steps outside do not change.
pub record Outside {W : Type 0} (m : Machine W) (I : Manager W → Type 0) : Type 0 where
  pub run :
      (p : String) (args : List String) (w : Manager W)
      → I w
      → I (record w { outside = (m.run p args w.outside).1 })
  pub try_exists :
      (p : String) (w : Manager W) → I w → I (record w { outside = (m.try_exists p w.outside).1 })
  pub canonicalize :
      (p : String) (w : Manager W) → I w → I (record w { outside = (m.canonicalize p w.outside).1 })
  pub create_dir_all :
      (p : String) (w : Manager W)
      → I w
      → I (record w { outside = (m.create_dir_all p w.outside).1 })
  pub sleep : (w : Manager W) → I w → I (record w { outside = m.sleep w.outside })

module _ {W : Type 0} (m : Machine W) (I : Manager W → Type 0) (out : Outside m I) where
  Keeps-ask :
      {E A : Type 0} (f : W → Result E A × W)
      → ((w : Manager W) → I w → I (record w { outside = (f w.outside).1 }))
      → Keeps I (ask f)
  Keeps-ask f h = record { at = λ s i. h s.world i }

  Keeps-request :
      {E A : Type 0} (c : Call) (f : W → Result E A × W)
      → ((w : Manager W) → I w → I (record w { outside = (f w.outside).1 }))
      → Keeps I (request c f)
  Keeps-request c f h = record { at = λ s i. h s.world i }

  run_program-Keeps :
      {E : Type 0} (f : ExecError → E) (p : String) (args : List String)
      → Keeps I (run_program m f p args)
  run_program-Keeps f p args = Keeps-map_err f _ (Keeps-request _ (m.run p args) (out.run p args))

  wait_for_device-Keeps : (p : String) (n : ℕ) → Keeps I (wait_for_device m p n)
  unfolding wait_for_device
  wait_for_device-Keeps p zero =
      Keeps-bind _ _ (Keeps-ask (m.try_exists p) (out.try_exists p)) λ there.
        Keeps-if there _ _ (Keeps-ask (m.canonicalize p) (out.canonicalize p)) (Keeps-fail _)
  wait_for_device-Keeps p (suc n) =
      Keeps-bind _ _ (Keeps-ask (m.try_exists p) (out.try_exists p)) λ there.
        Keeps-if there _ _ (Keeps-ask (m.canonicalize p) (out.canonicalize p)) (
          Keeps-bind _ _ (Keeps-ask (λ w. (ok tt, m.sleep w)) out.sleep)
            λ _. wait_for_device-Keeps p n)

  ensure_filesystem-Keeps : (d : String) → Keeps I (ensure_filesystem m d)
  unfolding ensure_filesystem
  ensure_filesystem-Keeps d = Keeps-bind _ _ (Keeps-attempt _ (run_program-Keeps _ _ _)) λ probe.
      Keeps-if (has_filesystem m probe) _ _ (Keeps-pure _) (
        Keeps-bind _ _ (run_program-Keeps _ _ _)
          λ o. Keeps-if o.success _ _ (Keeps-pure _) (Keeps-fail _))

  mount_device-Keeps : (d p : String) → Keeps I (mount_device m d p)
  unfolding mount_device
  mount_device-Keeps d p =
      Keeps-bind _ _ (Keeps-request _ (m.create_dir_all p) (out.create_dir_all p)) λ _.
        Keeps-bind _ _ (run_program-Keeps _ _ _)
          λ o. Keeps-if o.success _ _ (Keeps-pure _) (Keeps-fail _)

  prepare_device-Keeps : (cfg : Settings) (skip : Bool) → Keeps I (prepare_device m cfg skip)
  unfolding prepare_device
  prepare_device-Keeps cfg true = Keeps-pure _
  prepare_device-Keeps cfg false = Keeps-bind _ _ (wait_for_device-Keeps _ _) λ d.
      Keeps-bind _ _ (ensure_filesystem-Keeps d)
        λ _. Keeps-bind _ _ (mount_device-Keeps d _) λ _. Keeps-pure d

  pub prepare_volume-Keeps : (cfg : Settings) → Keeps I (prepare_volume m cfg)
  unfolding prepare_volume set_export_mode
  prepare_volume-Keeps cfg = Keeps-bind _ _ (prepare_device-Keeps cfg _) λ dev.
      Keeps-bind _ _ (Keeps-bind _ _ (Keeps-attempt _ (run_program-Keeps _ _ _)) λ _. Keeps-pure tt)
        λ _. Keeps-pure dev

  pub unmount-Keeps :
      (cfg : Settings) (skip : Bool) → Keeps I (unmount_unless_skipped m cfg {E = String} skip)
  unfolding unmount_device
  unmount-Keeps cfg true = Keeps-pure tt
  unmount-Keeps cfg false =
      Keeps-bind _ _ (Keeps-attempt _ (Keeps-bind _ _ (run_program-Keeps _ _ _) λ _. Keeps-pure tt))
        λ _. Keeps-pure tt
