-- ===== src/Suite/Backends.antt =====
-- The tests of src/recovery.rs.
use Prim.Native.Char.{code}
use Prim.Native.String as S
use hcloud_csi_rwx.Prelude.{
  ℕ, String, ◌≡◌, refl, Bool, true, false, not, ◌&&◌, ◌==◌, Option, none, some, List, [], ◌∷◌, ◌++◌,
  map, str_eq, format, if◌then◌else◌,
}
use hcloud_csi_rwx.Json.{Value, str, object}
use hcloud_csi_rwx.Kube.{Result, ok, err, api, other}
use hcloud_csi_rwx.Kube.Session.{Session, pure, ◌>>=◌}
use hcloud_csi_rwx.Exec.Fake.{contains_text}
use hcloud_csi_rwx.Provision.Nodes.{kube}
use hcloud_csi_rwx.Recovery.Types.{
  Env, namespace, RecoveryBackendInput, ApiError, Clients, Codec, bad_request, kube_error, cm_name,
}
use hcloud_csi_rwx.Recovery.Input.{strip_nuls, parse_input}
use hcloud_csi_rwx.Recovery.Router.{
  strip_prefix, Route, Response, status_code, json, require_bearer, recovery_routes,
}
use hcloud_csi_rwx.Testing.{FakeApi, new_api, ok_route}
use hcloud_csi_rwx.Suite.Disk.{is_ok, ok_where, is_text, every}
use hcloud_csi_rwx.Suite.Server.{client, on_api, any_to_string}
use hcloud_csi_rwx.Suite.States.{value_of}

abbrev pub bytes : String → List ℕ
bytes S.[] = []
bytes (S.◌∷◌ c s) = code c ∷ bytes s

-- The characters that stand in the bodies of the tests, without the space, which means nothing in them.
abbrev alphabet : String
alphabet = "abcdefghijklmnopqrstuvwxyzHV0123456789{}[]\":,-"

abbrev add_char : ℕ → String → String → String
add_char n S.[] rest = rest
add_char n (S.◌∷◌ c s) rest =
    let later = add_char n s rest in if code c == n then S.◌∷◌ c rest else later

abbrev text_of : List ℕ → String
text_of [] = ""
text_of (n ∷ l) = if n == 0 then "\n" else add_char n alphabet (text_of l)

-- A body is read by its keys; the version has to be there, and nothing may stand behind the object.
abbrev input_from : String → Option String → Result String RecoveryBackendInput
input_from text none = err "missing field `version`"
input_from text (some version) =
    if contains_text "\n" text
    then err "trailing characters"
    else ok (record { hostname = value_of "hostname" text; version = version })

-- The texts in quotes: those of a rest that starts outside of quotes; and, of one that starts inside, the
-- text up to its quote with those behind.
abbrev quoted : String → List String × (String × List String)
quoted S.[] = ([], ("", []))
quoted (S.◌∷◌ c s) =
    let (outside, (text, behind)) = quoted s in
    if code c == b'"' then (text ∷ behind, ("", outside)) else (outside, (S.◌∷◌ c text, behind))

abbrev joined : List String → String
joined [] = ""
joined (t ∷ ts) = format ("\"" ∷ t ∷ "\"," ∷ joined ts ∷ [])

abbrev clients_text : Clients → String
clients_text [] = ""
clients_text ((k, fhs) ∷ m) = format ("\"" ∷ k ∷ "\":[" ∷ joined fhs ∷ "]," ∷ clients_text m ∷ [])

abbrev pub codec : Codec
codec = record {
  input_from_slice = λ body. input_from (text_of body) (value_of "version" (text_of body));
  clients_from_str = λ text. ok (map (λ k. (k, [])) (quoted text).0);
  clients_to_string = λ m. ok (format ("{" ∷ clients_text m ∷ "}" ∷ []));
  status_from_u16 = λ code. some code;
  kube_to_string = λ e. any_to_string (kube e);
}

-- The variables of the environment, of which only the token may be set.
abbrev pub vars : Option String → Env
vars token name = if str_eq name "RECOVERY_BACKEND_TOKEN" then token else none

-- A request with no header, and one with a header, to a backend with or without a token.
abbrev pub sent :
    Option String
    → Option String
    → Route
    → String
    → FakeApi
    → Result ApiError Response × Session FakeApi
sent token header route body f =
    recovery_routes client (vars token) codec header route (bytes body) (on_api f)

abbrev pub send : Route → String → FakeApi → Result ApiError Response × Session FakeApi
send = sent none none

abbrev pub status_of : Result ApiError Response → ℕ
status_of (ok (status_code n)) = n
status_of (ok (json s)) = 200
status_of (err e) = e.0

abbrev pub cm : String → String → String → Value
cm hostname version text = object (
    ("apiVersion", str "v1")
    ∷ ("kind", str "ConfigMap")
    ∷ (
      "metadata",
      object (
          ("name", str (format ("recovery-backend-" ∷ hostname ∷ [])))
          ∷ ("namespace", str "hcloud-csi-rwx")
          ∷ ("annotations", object (("version", str version) ∷ []))
          ∷ []),
    )
    ∷ ("data", object ((version, str text) ∷ []))
    ∷ [])

abbrev pub posts : String
posts = "POST /api/v1/namespaces/hcloud-csi-rwx/configmaps"

abbrev pub patches : String
patches = "PATCH /api/v1/namespaces/hcloud-csi-rwx/configmaps/recovery-backend-h1"

abbrev pub body_v1 : String
body_v1 = "{\"hostname\":\"h1\",\"version\":\"V1\"}"

-- The ConfigMap of the host with these clients, which can be patched.
abbrev pub recorded : String → FakeApi
recorded clients = ok_route patches (cm "h1" "V1" "{}") (
    ok_route "GET /api/v1/namespaces/hcloud-csi-rwx/configmaps/recovery-backend-h1"
      (cm "h1" "V1" clients) new_api)

abbrev is_bad : {A : Type 0} → Result ApiError A → Bool
is_bad (ok a) = false
is_bad (err e) = e.0 == 400

abbrev is_input : RecoveryBackendInput → Bool
is_input i = is_text "h1" i.hostname && str_eq i.version "V1"

abbrev spaced : String
spaced = "{\"hostname\": \"h1\", \"version\": \"V1\"}"

unfoldable parse_input_tolerates_trailing_nul : Bool
parse_input_tolerates_trailing_nul = every (
    ok_where is_input (parse_input codec (bytes spaced ++ 0 ∷ []))
    ∷ is_ok (parse_input codec (bytes spaced))
    ∷ is_bad (parse_input codec (bytes "not json" ++ 0 ∷ []))
    ∷ [])

-- The route of `test_router` behind the bearer token: whatever stands behind it answers.
abbrev let_through : Option String → Option String → Bool
let_through token header = is_ok (require_bearer token header (pure tt) (on_api new_api)).0

unfoldable no_token_configured_allows_requests : Bool
no_token_configured_allows_requests = let_through none none

unfoldable wrong_or_missing_token_is_rejected : Bool
wrong_or_missing_token_is_rejected =
    not (let_through (some "s3cret") none)
    && not (let_through (some "s3cret") (some "Bearer wrong"))

unfoldable correct_token_is_accepted : Bool
correct_token_is_accepted = let_through (some "s3cret") (some "Bearer s3cret")

unfoldable namespace_and_cm_name_helpers : Bool
namespace_and_cm_name_helpers =
    str_eq (cm_name "host-1") "recovery-backend-host-1"
    && str_eq (namespace (vars none)) "hcloud-csi-rwx"

unfoldable kube_errors_map_to_matching_status_codes : Bool
kube_errors_map_to_matching_status_codes =
    ((kube_error codec (api 404 "nope")).0 == 404) && ((kube_error codec (other "x")).0 == 500)

-- The tests of the input, the token and the helpers pass.
backends_pass :
    every (
      parse_input_tolerates_trailing_nul ∷ no_token_configured_allows_requests
      ∷ wrong_or_missing_token_is_rejected ∷ correct_token_is_accepted
      ∷ namespace_and_cm_name_helpers ∷ kube_errors_map_to_matching_status_codes ∷ [])
    ≡ true
unfolding parse_input_tolerates_trailing_nul no_token_configured_allows_requests
    wrong_or_missing_token_is_rejected correct_token_is_accepted namespace_and_cm_name_helpers
    kube_errors_map_to_matching_status_codes parse_input strip_nuls bad_request require_bearer
    strip_prefix cm_name namespace kube_error contains_text ◌>>=◌
backends_pass = refl
