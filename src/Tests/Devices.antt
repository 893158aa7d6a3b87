-- ===== src/Tests/Devices.antt =====
-- Share-managers on the fake system, with and without a device of their own.
use hcloud_csi_rwx.Prelude.{◌≡◌, ◌≢◌, refl, false, none, some, [], ◌∷◌}
use hcloud_csi_rwx.Kube.{ok}
use hcloud_csi_rwx.Kube.Session.{Session, ◌>>=◌}
use hcloud_csi_rwx.Kube.Avoids.{count}
use hcloud_csi_rwx.Exec.Fake.{World, fake_machine, fake_run, fake_spawn, first_answer}
use hcloud_csi_rwx.Share.Machine.{Manager}
use hcloud_csi_rwx.Share.Config.{validate_config_value, is_config_char}
use hcloud_csi_rwx.Share.Block.{
  valid_export_mode, set_export_mode, wait_for_device, ensure_filesystem, mount_device,
  unmount_device,
}
use hcloud_csi_rwx.Share.Manager.{
  Settings, tick, shutdown, signal, validate, prepare_volume, start_ganesha, health_loop, serve,
  started, prepared, run,
}
use hcloud_csi_rwx.Share.Device.{on_device, run-on_device, Unmounted, run-Unmounted}
use hcloud_csi_rwx.Tests.Exports.{machine, settings}
use hcloud_csi_rwx.Tests.Endings.{before}

run-on_device_example :
    count on_device (run (fake_machine machine) settings (tick ∷ tick ∷ tick ∷ []) before).1.calls
    ≡ count on_device []
run-on_device_example =
    run-on_device (fake_machine machine) settings refl (tick ∷ tick ∷ tick ∷ []) before

abbrev mounting : Settings
mounting = record settings { skip_mount = false }

abbrev mounted : Session (Manager (World (Unit {0})))
mounted = (prepare_volume (fake_machine machine) mounting before).1

accepts : validate mounting ≡ ok tt
unfolding validate validate_config_value is_config_char valid_export_mode
accepts = refl

mounts : prepare_volume (fake_machine machine) mounting before ≡ (ok "/dev/sdb", mounted)
unfolding prepare_volume fake_machine fake_run first_answer set_export_mode wait_for_device
    ensure_filesystem mount_device ◌>>=◌
mounts = refl

ended : (run (fake_machine machine) mounting (shutdown ∷ []) before).0 ≡ ok (some signal)
unfolding run validate validate_config_value is_config_char valid_export_mode prepare_volume
    fake_machine fake_run fake_spawn first_answer set_export_mode wait_for_device ensure_filesystem
    mount_device unmount_device start_ganesha health_loop serve started prepared ◌>>=◌
ended = refl

ends : (run (fake_machine machine) mounting (shutdown ∷ []) before).0 ≢ ok none
ends h = cc (ended, h)

run-Unmounted_example :
    Unmounted
      (fake_machine machine)
      mounting
      refl
      (run (fake_machine machine) mounting (shutdown ∷ []) before).1
run-Unmounted_example =
    run-Unmounted (fake_machine machine) mounting refl (shutdown ∷ []) "/dev/sdb" before mounted
      accepts mounts ends
