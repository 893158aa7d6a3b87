-- ===== src/Share/Machine.antt =====
-- What a share-manager calls outside itself, and the steps that do: the file system, commands and the
-- child process of ganesha. `Manager` is the world outside with the shared state and whether there is a
-- child.
use hcloud_csi_rwx.Prelude.{ℕ, String, Bool, Option, List, [], ◌∷◌, format}
use hcloud_csi_rwx.Prelude.Decimal.{show_ℕ}
use hcloud_csi_rwx.Kube.{Result, ok}
use hcloud_csi_rwx.Kube.Session.{Call, Try}
use hcloud_csi_rwx.Share.Api.{ShareState}

pub record Outcome : Type 0 where
  pub success : Bool
  pub code : Option ℕ
  pub stdout : String

pub data ExecError : Type 0 where
  spawn_failed : String → ExecError
  timed_out : String → ℕ → ExecError

-- `Display`
abbrev pub exec_error_text : ExecError → String
exec_error_text (spawn_failed e) = format ("failed to spawn: " ∷ e ∷ [])
exec_error_text (timed_out program secs) =
    format (program ∷ " timed out after " ∷ show_ℕ secs ∷ "s" ∷ [])

-- The system. The text of an exit code in an error is left to `code_text`.
pub record Machine (W : Type 0) : Type 0 where
  pub run : String → List String → W → Result ExecError Outcome × W
  pub try_exists : String → W → Result String Bool × W
  pub canonicalize : String → W → Result String String × W
  pub create_dir_all : String → W → Result String (Unit {0}) × W
  pub write_file : String → String → W → Result String (Unit {0}) × W
  pub remove_file : String → W → Result String (Unit {0}) × W
  pub spawn : String → List String → W → Result ExecError (Unit {0}) × W
  pub child_running : W → Bool × W
  pub start_kill : W → W
  pub wait_child : ℕ → W → Bool × W
  pub sleep : W → W
  pub code_text : Option ℕ → String

pub record Manager (W : Type 0) : Type 0 where
  pub outside : W
  pub state : ShareState
  pub child : Bool

module _ {W E A : Type 0} where
  -- A step outside that is not noted: reading files, the child, the clock.
  abbrev pub ask : (W → Result E A × W) → Try (Manager W) E A
  ask f s =
      let (answer, w) = f s.world.outside in
      (answer, record s { world = record s.world { outside = w } })

  -- A step outside that is noted.
  abbrev pub request : Call → (W → Result E A × W) → Try (Manager W) E A
  request c f s =
      let (answer, w) = f s.world.outside in
      (answer, record { world = record s.world { outside = w }; calls = c ∷ s.calls })

module _ {W E : Type 0} where
  abbrev pub update : (Manager W → Manager W) → Try (Manager W) E (Unit {0})
  update f s = (ok tt, record s { world = f s.world })
