-- ===== src/Exec/Rules.antt =====
-- How the rules of `FakeExec` answer.
use hcloud_csi_rwx.Prelude.{
  String, ◌≡◌, refl, Option, none, some, List, [], ◌∷◌, ◌++◌, if◌then◌else◌, is_some, Option-cases,
  Bool-cases, inl, inr,
}
use hcloud_csi_rwx.Kube.{ok}
use hcloud_csi_rwx.Share.Machine.{Outcome}
use hcloud_csi_rwx.Exec.Fake.{
  FakeExec, Invocation, Rule, first_answer, fake_run, on, contains_text, joined,
}

abbrev or_else : {A : Type 0} → Option A → Option A → Option A
or_else none o = o
or_else (some a) o = some a

first_answer-append :
    (rules : List Rule) (r : Rule) (inv : Invocation)
    → first_answer (rules ++ r ∷ []) inv ≡ or_else (first_answer rules inv) (r inv)
unfolding first_answer
first_answer-append [] r inv = elim (Option-cases (r inv)) [
  | inl e ↦ rw e refl
  | inr (a, e) ↦ rw e refl
]
first_answer-append (rule ∷ rules) r inv = elim (Option-cases (rule inv)) [
  | inl e ↦ rw e (first_answer-append rules r inv)
  | inr (a, e) ↦ rw e refl
]

-- A rule that is added with `on` answers a command exactly where its text is in the line of the
-- command and no earlier rule answers; any other command is answered as before. The command is recorded
-- last.
pub fake_run-on :
    (needle : String) (outcome : Outcome) (program : String) (args : List String) (f : FakeExec)
    → let inv : Invocation = record { program = program; args = args } in
      ((fake_run program args (on needle outcome f)).0 ≡ (
        if is_some (first_answer f.rules inv)
        then (fake_run program args f).0
        else if contains_text needle (joined inv)
        then ok outcome
        else (fake_run program args f).0))
      × ((fake_run program args (on needle outcome f)).1.calls ≡ f.calls ++ inv ∷ [])
unfolding fake_run
fake_run-on needle outcome program args f =
    let inv : Invocation = record { program = program; args = args } in
    elim (Option-cases (first_answer f.rules inv)) [
      | inl e ↦ elim (Bool-cases (contains_text needle (joined inv))) [
        | inl y ↦ (rw (first_answer-append, e, y) refl, refl)
        | inr n ↦ (rw (first_answer-append, e, n) refl, refl)
      ]
      | inr (a, e) ↦ (rw (first_answer-append, e) refl, refl)
    ]
