-- ===== src/Testing.antt =====
-- The fake API server of the tests, src/testing.rs: a routing table in the place of a cluster.
pub mod Fixtures
pub mod Routes
use hcloud_csi_rwx.Prelude.{
  ℕ, zero, suc, String, Bool, true, false, Option, none, some, List, [], ◌∷◌, ◌++◌, map, any,
  filter, length, format, unwrap_or, if◌then◌else◌,
}
use hcloud_csi_rwx.Prelude.Int.{pos}
use hcloud_csi_rwx.Json.{Value, str, num, object}
use hcloud_csi_rwx.Exec.Fake.{contains_text}

pub record Seen : Type 0 where
  pub method : String
  pub path : String
  pub body : String

abbrev pub summary : Seen → String
summary s = format (s.method ∷ " " ∷ s.path ∷ [])

-- A status code with a JSON body.
abbrev pub Reply : Type 0
Reply = ℕ × Value

abbrev pub Responder : Type 0
Responder = Seen → Option Reply

pub record FakeApi : Type 0 where
  pub seen : List Seen
  pub routes : List Responder
  pub fallback : Option Reply

abbrev pub new_api : FakeApi
new_api = record { seen = []; routes = []; fallback = none }

abbrev pub reply_where : String → Reply → Responder
reply_where needle r s = if contains_text needle (summary s) then some r else none

abbrev pub on : String → ℕ → Value → FakeApi → FakeApi
on needle status body f = record f { routes = f.routes ++ reply_where needle (status, body) ∷ [] }

abbrev pub ok_route : String → Value → FakeApi → FakeApi
ok_route needle body = on needle 200 body

-- The status of a failure, as Kubernetes writes it.
abbrev pub status_value : String → String → ℕ → Value
status_value message reason code = object (
    ("kind", str "Status")
    ∷ ("apiVersion", str "v1")
    ∷ ("status", str "Failure")
    ∷ ("message", str message)
    ∷ ("reason", str reason)
    ∷ ("code", num (pos code))
    ∷ [])

-- `err`, with the reason of the status where http knows one.
abbrev pub err_route : (ℕ → Option String) → String → ℕ → FakeApi → FakeApi
err_route canonical_reason needle status =
    let reason = unwrap_or (canonical_reason status) "Error" in
    on needle status (status_value (format ("fake " ∷ reason ∷ [])) reason status)

abbrev pub default_response : ℕ → Value → FakeApi → FakeApi
default_response status body f = record f { fallback = some (status, body) }

abbrev pub summaries : FakeApi → List String
summaries f = map summary f.seen

abbrev pub called : FakeApi → String → Bool
called f needle = any (contains_text needle) (summaries f)

abbrev pub count : FakeApi → String → ℕ
count f needle = length (filter (contains_text needle) (summaries f))

abbrev pub bodies : FakeApi → String → List String
bodies f needle = map (λ s. s.body) (filter (λ s. contains_text needle (summary s)) f.seen)

-- The first route that answers.
unfoldable pub first_reply : List Responder → Seen → Option Reply
first_reply [] s = none
first_reply (route ∷ routes) s = elim (route s) [ none ↦ first_reply routes s | some r ↦ some r ]

abbrev no_route : Seen → Reply
no_route s = (404, status_value (format ("fake: no route for " ∷ summary s ∷ [])) "NotFound" 404)

abbrev pub or_else : Option Reply → Option Reply → Option Reply
or_else none o = o
or_else (some r) o = some r

-- `call`: the request is recorded, then answered.
unfoldable pub call : Seen → FakeApi → Reply × FakeApi
unfolding first_reply
call s f = (
  unwrap_or (or_else (first_reply f.routes s) f.fallback) (no_route s),
  record f { seen = f.seen ++ s ∷ [] },
)
