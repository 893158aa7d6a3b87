-- ===== src/Testing/Routes.antt =====
-- How the fake API server answers.
use hcloud_csi_rwx.Prelude.{
  String, ℕ, ◌≡◌, refl, List, [], ◌∷◌, ◌++◌, is_some, if◌then◌else◌, Bool-cases, Option-cases, inl,
  inr,
}
use hcloud_csi_rwx.Json.{Value}
use hcloud_csi_rwx.Exec.Fake.{contains_text}
use hcloud_csi_rwx.Testing.{FakeApi, Seen, Responder, summary, on, first_reply, call, or_else}

first_reply-append :
    (routes : List Responder) (r : Responder) (s : Seen)
    → first_reply (routes ++ r ∷ []) s ≡ or_else (first_reply routes s) (r s)
unfolding first_reply
first_reply-append [] r s = elim (Option-cases (r s)) [ inl e ↦ rw e refl | inr (a, e) ↦ rw e refl ]
first_reply-append (route ∷ routes) r s = elim (Option-cases (route s)) [
  | inl e ↦ rw e (first_reply-append routes r s)
  | inr (a, e) ↦ rw e refl
]

-- A route that is added answers a request exactly where its text is in the line of the request and no
-- earlier route answers; any other request is answered as before. The request is recorded last.
pub call-on :
    (needle : String) (status : ℕ) (body : Value) (s : Seen) (f : FakeApi)
    → ((call s (on needle status body f)).0 ≡ (
        if is_some (first_reply f.routes s)
        then (call s f).0
        else if contains_text needle (summary s)
        then (status, body)
        else (call s f).0))
      × ((call s (on needle status body f)).1.seen ≡ f.seen ++ s ∷ [])
unfolding call
call-on needle status body s f = elim (Option-cases (first_reply f.routes s)) [
  | inl e ↦ elim (Bool-cases (contains_text needle (summary s))) [
    | inl y ↦ (rw (first_reply-append, e, y) refl, refl)
    | inr n ↦ (rw (first_reply-append, e, n) refl, refl)
  ]
  | inr (a, e) ↦ (rw (first_reply-append, e) refl, refl)
]
