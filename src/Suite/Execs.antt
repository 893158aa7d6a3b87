-- ===== src/Suite/Execs.antt =====
-- The tests of src/exec.rs on FakeExec and the results of commands, and those of src/main.rs.
use hcloud_csi_rwx.Prelude.{
  ℕ, String, ◌≡◌, refl, Bool, true, false, not, ◌&&◌, ◌==◌, Option, none, some, List, [], ◌∷◌,
  str_eq, is_some, if◌then◌else◌,
}
use hcloud_csi_rwx.Prelude.Decimal.{show_ℕ}
use hcloud_csi_rwx.Map.{Map, lookup}
use hcloud_csi_rwx.Kube.{Result, ok, err}
use hcloud_csi_rwx.Exec.{outcome_ok, outcome_failed, with_stdout}
use hcloud_csi_rwx.Exec.Fake.{
  FakeChild, new_fake, on, on_error, ran, call_lines, alive_for, failing_spawn, fake_run,
  fake_spawn, child_is_running, child_start_kill, first_answer, contains_text, usize_max,
}
use hcloud_csi_rwx.Share.Machine.{Outcome, ExecError, spawn_failed, timed_out, exec_error_text}
use hcloud_csi_rwx.Share.Config.{validate_config_value, is_config_char}
use hcloud_csi_rwx.Share.Block.{valid_export_mode}
use hcloud_csi_rwx.Share.Manager.{Settings, validate}
use hcloud_csi_rwx.Share.CommandLine.{Clap, parse_run, parse_print, into_settings}
use hcloud_csi_rwx.Suite.Disk.{is_ok, is_err, ok_where, every}

abbrev succeeded : Result ExecError Outcome → Bool
succeeded = ok_where (λ out. out.success)

abbrev is_line : String → List String → Bool
is_line t (s ∷ []) = str_eq s t
is_line t _ = false

unfoldable fake_records_and_defaults_to_success : Bool
fake_records_and_defaults_to_success =
    let (out, fake) = fake_run "mount" ("-t" ∷ "nfs4" ∷ []) new_fake in
    every (succeeded out ∷ is_line "mount -t nfs4" (call_lines fake) ∷ ran fake "nfs4" ∷ [])

unfoldable fake_rules_match_by_substring : Bool
fake_rules_match_by_substring =
    let fake = on "blkid" (outcome_failed 2) new_fake in
    let (first, after) = fake_run "blkid" ("/dev/sda" ∷ []) fake in
    not (succeeded first) && succeeded (fake_run "mount" ("/dev/sda" ∷ []) after).0

unfoldable fake_can_fail_to_spawn : Bool
fake_can_fail_to_spawn = is_err (fake_run "mkfs.ext4" ("-F" ∷ []) (on_error "mkfs" new_fake)).0

-- How the polls of a process answer.
abbrev polls : List Bool → FakeChild → Bool
polls [] p = true
polls (expected ∷ l) p =
    let (up, p') = child_is_running p in let rest = polls l p' in (if_same expected up && rest)
  where
    if_same : Bool → Bool → Bool
    if_same true up = up
    if_same false up = not up

unfoldable fake_process_lifecycle : Bool
fake_process_lifecycle =
    let (p, fake) = fake_spawn "ganesha.nfsd" ("-F" ∷ []) (alive_for 2 new_fake) in
    ok_where (polls (true ∷ true ∷ false ∷ [])) p && ran fake "ganesha.nfsd"

unfoldable fake_process_kill_stops_it : Bool
fake_process_kill_stops_it =
    let p = (fake_spawn "ganesha.nfsd" [] new_fake).0 in
    ok_where (polls (true ∷ [])) p
    && ok_where (λ c. polls (false ∷ []) (child_start_kill (child_is_running c).1)) p

unfoldable fake_spawn_failure : Bool
fake_spawn_failure = is_err (fake_spawn "ganesha.nfsd" [] (failing_spawn new_fake)).0

abbrev is_code : ℕ → Option ℕ → Bool
is_code n none = false
is_code n (some m) = m == n

unfoldable outcome_helpers_and_error_display : Bool
outcome_helpers_and_error_display = every (
    outcome_ok.success
    ∷ is_code 3 (outcome_failed 3).code
    ∷ str_eq (with_stdout outcome_ok "x").stdout "x"
    ∷ contains_text "boom" (exec_error_text (spawn_failed "boom"))
    ∷ contains_text "mount" (exec_error_text (timed_out "mount" 5))
    ∷ [])

-- The flags of a command line, as clap gives them, with no variable set.
abbrev clap_of : Map String → Bool → Clap
clap_of flags skip = record {
  subcommand = none;
  unrecognized = λ name. "";
  given = λ long env. lookup long flags;
  number = λ bits text. if str_eq text "1234" then ok 1234 else err "invalid digit found in string";
  switch = λ long env. ok skip;
  missing = λ long. "the following required arguments were not provided";
}

abbrev run_flags : Map String
run_flags =
    ("device", "/dev/sdb")
    ∷ ("volume", "pvc-1")
    ∷ ("svc-ip", "10.0.0.7")
    ∷ ("monitoring-port", "1234")
    ∷ []

abbrev holds : {A : Type 0} → (A → Bool) → Option A → Bool
holds p none = false
holds p (some a) = p a

abbrev as_given : Settings × String → Bool
as_given (s, listen) = every (
    str_eq s.device "/dev/sdb"
    ∷ str_eq s.volume "pvc-1"
    ∷ str_eq s.svc_ip "10.0.0.7"
    ∷ s.skip_mount
    ∷ (s.monitoring_port == 1234)
    ∷ str_eq s.mount_point "/export"
    ∷ str_eq listen "0.0.0.0:9500"
    ∷ is_ok (validate s)
    ∷ [])

unfoldable run_args_map_to_settings : Bool
run_args_map_to_settings =
    ok_where (λ command. holds as_given (into_settings command))
      (parse_run (clap_of run_flags true))

unfoldable print_config_variant_has_no_settings : Bool
print_config_variant_has_no_settings =
    ok_where (λ command. not (is_some (into_settings command)))
      (parse_print (clap_of (("volume", "v") ∷ []) false))

-- The tests of the commands pass.
execs_pass :
    every (
      fake_records_and_defaults_to_success ∷ fake_rules_match_by_substring ∷ fake_can_fail_to_spawn
      ∷ fake_process_lifecycle ∷ fake_process_kill_stops_it ∷ fake_spawn_failure
      ∷ outcome_helpers_and_error_display ∷ run_args_map_to_settings
      ∷ print_config_variant_has_no_settings ∷ [])
    ≡ true
unfolding fake_records_and_defaults_to_success fake_rules_match_by_substring fake_can_fail_to_spawn
    fake_process_lifecycle fake_process_kill_stops_it fake_spawn_failure
    outcome_helpers_and_error_display run_args_map_to_settings print_config_variant_has_no_settings
    fake_run fake_spawn child_is_running first_answer new_fake usize_max contains_text show_ℕ lookup
    parse_run parse_print into_settings validate validate_config_value is_config_char
    valid_export_mode
execs_pass = refl
