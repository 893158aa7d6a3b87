-- ===== src/Exec.antt =====
-- Running commands and spawning processes: src/exec.rs. The process itself is tokio's.
pub mod Fake
pub mod Rules
use hcloud_csi_rwx.Prelude.{
  ℕ, String, Bool, true, false, Option, none, some, List, is_some, not, and_then,
}
use hcloud_csi_rwx.Kube.{Result, ok, err}
use hcloud_csi_rwx.Kube.Session.{recode}
use hcloud_csi_rwx.Share.Machine.{Outcome, ExecError, spawn_failed, timed_out}

-- `Outcome::ok`, `Outcome::failed` and `with_stdout`
abbrev pub outcome_ok : Outcome
outcome_ok = record { success = true; code = some 0; stdout = "" }

abbrev pub outcome_failed : ℕ → Outcome
outcome_failed code = record { success = false; code = some code; stdout = "" }

abbrev pub with_stdout : Outcome → String → Outcome
with_stdout o s = record o { stdout = s }

-- `std::process::Output`, with the text that `from_utf8_lossy` makes of its bytes.
pub record Output : Type 0 where
  pub success : Bool
  pub code : Option ℕ
  pub stdout : String

-- `tokio::process` on the world `W`, with children `C`: `output_within` is `output` under
-- `tokio::time::timeout`, and answers nothing where the time is over first.
pub record Tokio (W C : Type 0) : Type 0 where
  pub output : String → List String → W → Result String Output × W
  pub output_within : ℕ → String → List String → W → Option (Result String Output) × W
  pub spawn : String → List String → W → Result String C × W
  pub try_wait : C → W → Result String (Option ℕ) × W
  pub start_kill : C → W → Result String (Unit {0}) × W
  pub wait_within : ℕ → C → W → Option (Result String ℕ) × W

abbrev outcome_of : Output → Outcome
outcome_of out = record { success = out.success; code = out.code; stdout = out.stdout }

abbrev finished : Result String Output → Result ExecError Outcome
finished (ok out) = ok (outcome_of out)
finished (err e) = err (spawn_failed e)

abbrev within : String → ℕ → Option (Result String Output) → Result ExecError Outcome
within program secs none = err (timed_out program secs)
within program secs (some r) = finished r

-- `try_wait().ok().flatten().is_none()`
abbrev still_running : Result String (Option ℕ) → Bool
still_running (ok none) = true
still_running (ok (some status)) = false
still_running (err e) = true

-- `matches!(…, Ok(Ok(_)))`
abbrev ended : Option (Result String ℕ) → Bool
ended none = false
ended (some (ok status)) = true
ended (some (err e)) = false

module _ {W C : Type 0} (t : Tokio W C) where
  -- `SystemExec::run`, with the whole seconds of its timeout.
  unfoldable pub run : String → List String → Option ℕ → W → Result ExecError Outcome × W
  run program args none w = let (r, w') = t.output program args w in (finished r, w')
  run program args (some secs) w =
      let (r, w') = t.output_within secs program args w in (within program secs r, w')

  -- `SystemExec::spawn`
  unfoldable pub spawn : String → List String → W → Result ExecError C × W
  spawn program args w = let (r, w') = t.spawn program args w in (recode spawn_failed r, w')

  -- `TokioChild`
  unfoldable pub is_running : C → W → Bool × W
  is_running child w = let (r, w') = t.try_wait child w in (still_running r, w')

  unfoldable pub start_kill : C → W → W
  start_kill child w = (t.start_kill child w).1

  unfoldable pub wait_with_timeout : ℕ → C → W → Bool × W
  wait_with_timeout secs child w = let (r, w') = t.wait_within secs child w in (ended r, w')
