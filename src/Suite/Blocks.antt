-- ===== src/Suite/Blocks.antt =====
-- The tests of src/block.rs.
use hcloud_csi_rwx.Prelude.{String, ◌≡◌, refl, Bool, true, not, ◌&&◌, [], ◌∷◌}
use hcloud_csi_rwx.Kube.Session.{◌>>=◌}
use hcloud_csi_rwx.Map.{lookup}
use hcloud_csi_rwx.Prelude.Decimal.{show_ℕ}
use hcloud_csi_rwx.Exec.{outcome_failed}
use hcloud_csi_rwx.Exec.Fake.{
  new_fake, ran, on, on_error, contains_text, fake_machine, fake_run, first_answer, usize_max,
}
use hcloud_csi_rwx.Share.Block.{
  wait_for_device, ensure_filesystem, make_filesystem, mount_device, unmount_device,
  set_export_mode, health_check, valid_export_mode,
}
use hcloud_csi_rwx.Suite.Disk.{
  machine, with_files, on_fake, fake_after, is_ok, is_err, err_contains, ok_where, every,
}

unfoldable existing_filesystem_skips_mkfs : Bool
existing_filesystem_skips_mkfs =
    let r = ensure_filesystem machine "/dev/sdb" (on_fake new_fake) in
    every (
      is_ok r.0
      ∷ ran (fake_after r) "blkid -c /dev/null /dev/sdb"
      ∷ not (ran (fake_after r) "mkfs.ext4")
      ∷ [])

unfoldable missing_filesystem_triggers_mkfs : Bool
missing_filesystem_triggers_mkfs =
    let fake = on "blkid" (outcome_failed 2) new_fake in
    let r = ensure_filesystem machine "/dev/sdb" (on_fake fake) in
    is_ok r.0 && ran (fake_after r) "mkfs.ext4 -F /dev/sdb"

unfoldable mkfs_failure_is_reported : Bool
mkfs_failure_is_reported =
    let fake = on "mkfs.ext4" (outcome_failed 1) (on "blkid" (outcome_failed 2) new_fake) in
    err_contains "mkfs.ext4 exited" (ensure_filesystem machine "/dev/sdb" (on_fake fake)).0

unfoldable mkfs_spawn_error_is_reported : Bool
mkfs_spawn_error_is_reported =
    let fake = on_error "mkfs.ext4" (on "blkid" (outcome_failed 2) new_fake) in
    err_contains "failed to run mkfs.ext4" (ensure_filesystem machine "/dev/sdb" (on_fake fake)).0

abbrev mount_dir : String
mount_dir = "/tmp/hcloud-csi-rwx-mount-test"

unfoldable mount_uses_ext4_and_reports_failure : Bool
mount_uses_ext4_and_reports_failure =
    let r = mount_device machine "/dev/sdb" mount_dir (on_fake new_fake) in
    let bad = on "mount" (outcome_failed 32) new_fake in
    every (
      is_ok r.0
      ∷ ran (fake_after r) "mount -t ext4 /dev/sdb /tmp/hcloud-csi-rwx-mount-test"
      ∷ err_contains "exited with code" (mount_device machine "/dev/sdb" mount_dir (on_fake bad)).0
      ∷ [])

unfoldable unmount_tolerates_missing_mountpoint : Bool
unmount_tolerates_missing_mountpoint =
    let fake = on "umount" (outcome_failed 1) new_fake in
    let r = unmount_device machine "/definitely/not/mounted/anywhere" (on_fake fake) in
    is_ok r.0 && ran (fake_after r) "umount"

unfoldable unmount_warns_when_path_still_exists : Bool
unmount_warns_when_path_still_exists =
    let fake = on "umount" (outcome_failed 1) new_fake in
    let r = unmount_device machine "/tmp" (on_fake fake) in
    is_ok r.0 && ran (fake_after r) "umount /tmp"

unfoldable unmount_success_path : Bool
unmount_success_path = is_ok (unmount_device machine "/tmp" (on_fake new_fake)).0

unfoldable unmount_spawn_error_is_reported : Bool
unmount_spawn_error_is_reported =
    is_err (unmount_device machine "/tmp" (on_fake (on_error "umount" new_fake))).0

unfoldable set_export_mode_covers_all_branches : Bool
set_export_mode_covers_all_branches =
    let r = set_export_mode machine {E = String} "/export" "0777" (on_fake new_fake) in
    let nonzero = on "chmod" (outcome_failed 1) new_fake in
    let broken = on_error "chmod" new_fake in
    every (
      ran (fake_after r) "chmod 0777 /export"
      ∷ is_ok (set_export_mode machine {E = String} "/export" "0777" (on_fake nonzero)).0
      ∷ is_ok (set_export_mode machine {E = String} "/export" "0777" (on_fake broken)).0
      ∷ [])

abbrev health_dir : String
health_dir = "/tmp/hcloud-csi-rwx-health-test"

unfoldable health_check_roundtrip : Bool
health_check_roundtrip =
    let w = (machine.create_dir_all health_dir (on_fake new_fake).world.outside).1 in
    (health_check machine health_dir w).0 && not (health_check machine "/no/such/dir/at/all" w).0

abbrev dev_file : String
dev_file = "/tmp/hcloud-csi-rwx-dev-test"

-- A second leaves room for two polls, and fifty milliseconds for the one at the end of the wait.
unfoldable wait_for_device_finds_and_times_out : Bool
wait_for_device_finds_and_times_out =
    let got = wait_for_device machine dev_file 2 (with_files (dev_file ∷ []) new_fake) in
    let late = wait_for_device machine "/dev/nonexistent-hcloud-test" 0 (on_fake new_fake) in
    ok_where (contains_text "hcloud-csi-rwx-dev-test") got.0
    && err_contains "timeout waiting for device" late.0

unfoldable export_mode_validation : Bool
export_mode_validation = every (
    valid_export_mode "0777"
    ∷ valid_export_mode "755"
    ∷ not (valid_export_mode "0778")
    ∷ not (valid_export_mode "77")
    ∷ not (valid_export_mode "07777")
    ∷ not (valid_export_mode "rwx")
    ∷ [])

-- The tests of ensure_filesystem and mount_device pass.
mounting_passes :
    every (
      existing_filesystem_skips_mkfs ∷ missing_filesystem_triggers_mkfs ∷ mkfs_failure_is_reported
      ∷ mkfs_spawn_error_is_reported ∷ mount_uses_ext4_and_reports_failure ∷ [])
    ≡ true
unfolding show_ℕ existing_filesystem_skips_mkfs missing_filesystem_triggers_mkfs
    mkfs_failure_is_reported mkfs_spawn_error_is_reported mount_uses_ext4_and_reports_failure
    ensure_filesystem make_filesystem mount_device fake_machine fake_run first_answer new_fake
    usize_max contains_text ◌>>=◌
mounting_passes = refl

-- The other tests pass.
others_pass :
    every (
      unmount_tolerates_missing_mountpoint ∷ unmount_warns_when_path_still_exists
      ∷ unmount_success_path ∷ unmount_spawn_error_is_reported ∷ set_export_mode_covers_all_branches
      ∷ health_check_roundtrip ∷ wait_for_device_finds_and_times_out ∷ export_mode_validation ∷ [])
    ≡ true
unfolding unmount_tolerates_missing_mountpoint unmount_warns_when_path_still_exists
    unmount_success_path unmount_spawn_error_is_reported set_export_mode_covers_all_branches
    health_check_roundtrip wait_for_device_finds_and_times_out export_mode_validation unmount_device
    set_export_mode health_check wait_for_device valid_export_mode lookup fake_machine fake_run
    first_answer new_fake usize_max contains_text ◌>>=◌
others_pass = refl
