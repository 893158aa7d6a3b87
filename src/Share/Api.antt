-- ===== src/Share/Api.antt =====
-- The state that a share-manager shows, and its HTTP API: src/api.rs.
use hcloud_csi_rwx.Prelude.{ℕ, String, Bool, false, Option, none, str_eq, if◌then◌else◌}

pub record ShareState : Type 0 where
  pub ready : Bool
  pub endpoint : Option String
  pub volume : String
  pub error : Option String

abbrev pub new_state : String → ShareState
new_state volume = record { ready = false; endpoint = none; volume = volume; error = none }

unfoldable pub healthz : ShareState → ℕ × String
healthz s = if s.ready then (200, "ok") else (503, "not ready")

unfoldable pub endpoint : ShareState → ℕ × ShareState
endpoint s = ((if s.ready then 200 else 503), s)

unfoldable pub state_handler : ShareState → ShareState
state_handler s = s

-- An answer of the server: a text, or the state as JSON.
pub data Response : Type 0 where
  text : ℕ → String → Response
  json : ℕ → ShareState → Response

-- The routes, each with its handler; any other path is not found.
unfoldable pub app : ShareState → String → Response
unfolding healthz endpoint state_handler
app s path =
    if str_eq path "/healthz"
    then (let (code, t) = healthz s in text code t)
    else if str_eq path "/endpoint"
    then (let (code, t) = endpoint s in json code t)
    else if str_eq path "/state"
    then json 200 (state_handler s)
    else text 404 ""
