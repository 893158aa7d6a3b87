-- ===== src/Suite/Disk.antt =====
-- What the tests stand on: a file system in memory in the place of `std::fs`, beside FakeExec, and the
-- words that the assertions use.
use Prim.Native.Char.{code}
use Prim.Native.String as S
use hcloud_csi_rwx.Prelude.{
  ℕ, String, Bool, true, false, not, ◌&&◌, ◌||◌, ◌==◌, Option, none, some, List, [], ◌∷◌, contains,
  format, is_some, str_eq, if◌then◌else◌,
}
use hcloud_csi_rwx.Prelude.Decimal.{show_ℕ}
use hcloud_csi_rwx.Map.{Map, lookup}
use hcloud_csi_rwx.Kube.{Result, ok, err}
use hcloud_csi_rwx.Kube.Session.{Session}
use hcloud_csi_rwx.Exec.{outcome_ok}
use hcloud_csi_rwx.Exec.Fake.{FakeExec, World, contains_text, fake_machine}
use hcloud_csi_rwx.Share.Api.{new_state}
use hcloud_csi_rwx.Share.Machine.{Machine, Manager, spawn_failed}

-- The files with their texts, and the directories that are there.
pub record Disk : Type 0 where
  pub files : Map String
  pub dirs : List String

abbrev has_slash : String → Bool
has_slash S.[] = false
has_slash (S.◌∷◌ c s) = code c == b'/' || has_slash s

-- The directory of a path: what stands before its last slash.
abbrev parent : String → String
parent S.[] = ""
parent (S.◌∷◌ c s) = let rest = parent s in if has_slash s then S.◌∷◌ c rest else ""

abbrev exists_on : Disk → String → Bool
exists_on d path = is_some (lookup path d.files) || contains d.dirs path

abbrev no_such_file : String
no_such_file = "No such file or directory (os error 2)"

abbrev code_text : Option ℕ → String
code_text none = "None"
code_text (some c) = format ("Some(" ∷ show_ℕ c ∷ ")" ∷ [])

-- The file system; its commands and processes are not used.
abbrev disk_machine : Machine Disk
disk_machine = record {
  run = λ program args d. (ok outcome_ok, d);
  try_exists = λ path d. (ok (exists_on d path), d);
  canonicalize = λ path d. ((if exists_on d path then ok path else err no_such_file), d);
  create_dir_all = λ path d. (ok tt, record d { dirs = path ∷ d.dirs });
  write_file = λ path text d.
      if contains d.dirs (parent path)
      then (ok tt, record d { files = (path, text) ∷ d.files })
      else (err no_such_file, d);
  remove_file = λ path d. (ok tt, d);
  spawn = λ program args d. (err (spawn_failed "no program"), d);
  child_running = λ d. (false, d);
  start_kill = λ d. d;
  wait_child = λ secs d. (true, d);
  sleep = λ d. d;
  code_text = code_text;
}

abbrev pub machine : Machine (World Disk)
machine = fake_machine disk_machine

-- The temporary directory, with the named files in it.
abbrev pub with_files : List String → FakeExec → Session (Manager (World Disk))
with_files paths fake = record {
  world = record {
    outside = record {
      fake = fake;
      child = none;
      files = record { files = written paths; dirs = "/tmp" ∷ [] };
    };
    state = new_state "v";
    child = false;
  };
  calls = [];
}
  where
    written : List String → Map String
    written [] = []
    written (p ∷ ps) = (p, "x") ∷ written ps

abbrev pub on_fake : FakeExec → Session (Manager (World Disk))
on_fake = with_files []

-- The fake after a run.
abbrev pub fake_after : {A : Type 0} → A × Session (Manager (World Disk)) → FakeExec
fake_after (a, s) = s.world.outside.fake

abbrev pub is_ok : {E A : Type 0} → Result E A → Bool
is_ok (ok a) = true
is_ok (err e) = false

abbrev pub is_err : {E A : Type 0} → Result E A → Bool
is_err r = not (is_ok r)

abbrev pub err_contains : {A : Type 0} → String → Result String A → Bool
err_contains needle (ok a) = false
err_contains needle (err e) = contains_text needle e

abbrev pub ok_where : {E A : Type 0} → (A → Bool) → Result E A → Bool
ok_where p (ok a) = p a
ok_where p (err e) = false

abbrev pub is_text : String → Option String → Bool
is_text t none = false
is_text t (some s) = str_eq s t

abbrev pub every : List Bool → Bool
every [] = true
every (b ∷ bs) = b && every bs
