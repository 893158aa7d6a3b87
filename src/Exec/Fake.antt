-- ===== src/Exec/Fake.antt =====
-- `FakeExec` of src/exec.rs: commands that are recorded and answered from rules.
use Prim.Native.Char.{code}
use Prim.Native.String as S
use hcloud_csi_rwx.Prelude.{
  ℕ, ◌-◌, String, Bool, true, false, Option, none, some, List, [], ◌∷◌, ◌++◌, ◌||◌, ◌&&◌, ◌==◌, map,
  any, format, if◌then◌else◌, unwrap_or,
}
use hcloud_csi_rwx.Kube.{Result, ok, err}
use hcloud_csi_rwx.Share.Machine.{Outcome, ExecError, spawn_failed, Machine}
use hcloud_csi_rwx.Exec.{outcome_ok}

-- `usize::MAX` on a machine of 64 bits
unfoldable pub usize_max : ℕ
usize_max = 18446744073709551615

pub record Invocation : Type 0 where
  pub program : String
  pub args : List String

-- `args.join(" ")`
abbrev join_spaces : List String → String
join_spaces [] = ""
join_spaces (a ∷ []) = a
join_spaces (a ∷ b ∷ l) = format (a ∷ " " ∷ join_spaces (b ∷ l) ∷ [])

abbrev pub joined : Invocation → String
joined inv = format (inv.program ∷ " " ∷ join_spaces inv.args ∷ [])

abbrev pub starts_with : String → String → Bool
starts_with S.[] s = true
starts_with (S.◌∷◌ c t) S.[] = false
starts_with (S.◌∷◌ c t) (S.◌∷◌ d s) = code c == code d && starts_with t s

-- `contains` of a text
unfoldable pub contains_text : String → String → Bool
contains_text needle S.[] = starts_with needle ""
contains_text needle (S.◌∷◌ d s) = starts_with needle (S.◌∷◌ d s) || contains_text needle s

abbrev pub Rule : Type 0
Rule = Invocation → Option (Result ExecError Outcome)

pub record FakeExec : Type 0 where
  pub calls : List Invocation
  pub rules : List Rule
  pub spawn_fails : Bool
  pub alive_polls : ℕ

unfoldable pub new_fake : FakeExec
unfolding usize_max
new_fake = record { calls = []; rules = []; spawn_fails = false; alive_polls = usize_max }

abbrev pub call_lines : FakeExec → List String
call_lines f = map joined f.calls

abbrev pub ran : FakeExec → String → Bool
ran f needle = any (contains_text needle) (call_lines f)

abbrev pub answer_where : String → Result ExecError Outcome → Rule
answer_where needle r inv = if contains_text needle (joined inv) then some r else none

abbrev pub add_rule : Rule → FakeExec → FakeExec
add_rule r f = record f { rules = f.rules ++ r ∷ [] }

abbrev pub on : String → Outcome → FakeExec → FakeExec
on needle outcome = add_rule (answer_where needle (ok outcome))

abbrev pub on_error : String → FakeExec → FakeExec
on_error needle = add_rule (answer_where needle (err (spawn_failed "fake spawn failure")))

abbrev pub failing_spawn : FakeExec → FakeExec
failing_spawn f = record f { spawn_fails = true }

abbrev pub alive_for : ℕ → FakeExec → FakeExec
alive_for n f = record f { alive_polls = n }

abbrev pub recorded : String → List String → FakeExec → FakeExec
recorded program args f = record f {
  calls = f.calls ++ record { program = program; args = args } ∷ [];
}

-- The loop over the rules: the first that answers.
unfoldable pub first_answer : List Rule → Invocation → Option (Result ExecError Outcome)
first_answer [] inv = none
first_answer (rule ∷ rules) inv = elim (rule inv) [
  | none ↦ first_answer rules inv
  | some r ↦ some r
]

-- `run`: the timeout is not used.
unfoldable pub fake_run : String → List String → FakeExec → Result ExecError Outcome × FakeExec
fake_run program args f = (
  unwrap_or (first_answer f.rules (record { program = program; args = args })) (ok outcome_ok),
  recorded program args f,
)

pub record FakeChild : Type 0 where
  pub remaining : ℕ
  pub killed : Bool

unfoldable pub fake_spawn : String → List String → FakeExec → Result ExecError FakeChild × FakeExec
fake_spawn program args f = (
  (if f.spawn_fails
      then err (spawn_failed "fake spawn failure")
      else ok (record { remaining = f.alive_polls; killed = false })),
  recorded program args f,
)

-- A poll of the child; one that lives for ever is not counted.
unfoldable pub child_is_running : FakeChild → Bool × FakeChild
child_is_running c =
    if c.killed || c.remaining == 0
    then (false, c)
    else (true, (if c.remaining == usize_max then c else record c { remaining = c.remaining - 1 }))

abbrev pub child_start_kill : FakeChild → FakeChild
child_start_kill c = record c { killed = true }

-- A system whose commands and processes are the fake's and whose files are those of another.
pub record World (W : Type 0) : Type 0 where
  pub fake : FakeExec
  pub child : Option FakeChild
  pub files : W

module _ {W : Type 0} (files : Machine W) where
  abbrev on_files : {A : Type 0} → (W → A × W) → World W → A × World W
  on_files f w = let (a, v) = f w.files in (a, record w { files = v })

  abbrev spawned : Result ExecError FakeChild → World W → Result ExecError (Unit {0}) × World W
  spawned (ok c) w = (ok tt, record w { child = some c })
  spawned (err e) w = (err e, w)

  abbrev polled : Option FakeChild → World W → Bool × World W
  polled none w = (false, w)
  polled (some c) w = let (up, c') = child_is_running c in (up, record w { child = some c' })

  abbrev killed_child : Option FakeChild → Option FakeChild
  killed_child none = none
  killed_child (some c) = some (child_start_kill c)

  unfoldable pub fake_machine : Machine (World W)
  unfolding fake_run fake_spawn child_is_running
  fake_machine = record {
    run = λ program args w. let (r, f) = fake_run program args w.fake in (r, record w { fake = f });
    try_exists = λ path. on_files (files.try_exists path);
    canonicalize = λ path. on_files (files.canonicalize path);
    create_dir_all = λ path. on_files (files.create_dir_all path);
    write_file = λ path text. on_files (files.write_file path text);
    remove_file = λ path. on_files (files.remove_file path);
    spawn = λ program args w.
        let (r, f) = fake_spawn program args w.fake in spawned r (record w { fake = f });
    child_running = λ w. polled w.child w;
    start_kill = λ w. record w { child = killed_child w.child };
    wait_child = λ secs w. (true, w);
    sleep = λ w. record w { files = files.sleep w.files };
    code_text = files.code_text;
  }
