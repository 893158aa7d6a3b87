-- ===== src/Share/Block.antt =====
-- The block device of a share: src/block.rs. Every step that runs a command is noted as a request.
pub mod Waiting
use hcloud_csi_rwx.Prelude.{
  ℕ, zero, suc, String, Bool, true, false, List, [], ◌∷◌, ◌&&◌, leb, format, if◌then◌else◌,
}
use Prim.Native.String as S
use hcloud_csi_rwx.Kube.{Result, ok, err}
use hcloud_csi_rwx.Kube.Session.{Try, pure, fail, attempt, map_err, ◌>>=◌, ◌>>◌, exec, create_dir}
use hcloud_csi_rwx.Share.Config.{every_char, is_octal}
use hcloud_csi_rwx.Share.Machine.{
  Outcome, ExecError, exec_error_text, Machine, Manager, ask, request,
}

abbrev chars : String → ℕ
chars S.[] = 0
chars (S.◌∷◌ c s) = suc (chars s)

-- Octal digits take one byte each, so the length is counted in characters.
unfoldable pub valid_export_mode : String → Bool
valid_export_mode mode = leb 3 (chars mode) && leb (chars mode) 4 && every_char is_octal mode

module _ {W : Type 0} (m : Machine W) where
  abbrev pub run_program :
      {E : Type 0} → (ExecError → E) → String → List String → Try (Manager W) E Outcome
  run_program f program args = map_err f (request (exec program args) (m.run program args))

  -- The wait for the device; `polls` is the number of rounds that the clock leaves until the deadline.
  unfoldable pub wait_for_device : String → ℕ → Try (Manager W) String String
  wait_for_device dev_path zero = do
    there ← ask (m.try_exists dev_path)
    if there
        then ask (m.canonicalize dev_path)
        else fail (format ("timeout waiting for device " ∷ dev_path ∷ []))
  wait_for_device dev_path (suc polls) = do
    there ← ask (m.try_exists dev_path)
    if there
        then ask (m.canonicalize dev_path)
        else (do ask (λ w. (ok tt, m.sleep w)); wait_for_device dev_path polls)

  abbrev pub has_filesystem : Result ExecError Outcome → Bool
  has_filesystem (ok o) = o.success
  has_filesystem (err e) = false

  abbrev mkfs_failed : ExecError → String
  mkfs_failed e = format ("failed to run mkfs.ext4: " ∷ exec_error_text e ∷ [])

  unfoldable pub make_filesystem : String → Try (Manager W) String (Unit {0})
  make_filesystem device = do
    out ← run_program mkfs_failed "mkfs.ext4" ("-F" ∷ device ∷ [])
    if out.success
        then pure tt
        else fail (format ("mkfs.ext4 exited with code " ∷ m.code_text out.code ∷ []))

  unfoldable pub ensure_filesystem : String → Try (Manager W) String (Unit {0})
  unfolding make_filesystem
  ensure_filesystem device = do
    probe ← attempt (run_program (λ e. e) "blkid" ("-c" ∷ "/dev/null" ∷ device ∷ []))
    if has_filesystem probe then pure tt else make_filesystem device

  unfoldable pub mount_device : String → String → Try (Manager W) String (Unit {0})
  mount_device device mount_point = do
    request (create_dir mount_point) (m.create_dir_all mount_point)
    out ←
        run_program (λ e. format ("failed to run mount: " ∷ exec_error_text e ∷ [])) "mount"
          ("-t" ∷ "ext4" ∷ device ∷ mount_point ∷ [])
    if out.success
        then pure tt
        else fail (
            format (
              "mount "
              ∷ device
              ∷ " at "
              ∷ mount_point
              ∷ " exited with code "
              ∷ m.code_text out.code
              ∷ []))

  -- A command that ran counts as unmounted, whatever its exit code was.
  unfoldable pub unmount_device : String → Try (Manager W) String (Unit {0})
  unmount_device mount_point = do
    run_program (λ e. format ("failed to run umount: " ∷ exec_error_text e ∷ [])) "umount"
        (mount_point ∷ [])
    pure tt

  unfoldable pub set_export_mode : {E : Type 0} → String → String → Try (Manager W) E (Unit {0})
  set_export_mode mount_point mode = do
    attempt (run_program (λ e. e) "chmod" (mode ∷ mount_point ∷ []))
    pure tt

  abbrev probe_path : String → String
  probe_path mount_point = format (mount_point ∷ "/.hcloud-csi-rwx.health" ∷ [])

  abbrev probed : String → Result String (Unit {0}) → W → Bool × W
  probed mount_point (ok _) w = (true, (m.remove_file (probe_path mount_point) w).1)
  probed mount_point (err e) w = (false, w)

  -- `health_check`: the probe file can be written; that it cannot be removed does not matter.
  unfoldable pub health_check : String → W → Bool × W
  health_check mount_point w =
      let (answer, w') = m.write_file (probe_path mount_point) "ok" w in
      probed mount_point answer w'
