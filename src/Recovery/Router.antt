-- ===== src/Recovery/Router.antt =====
-- The routes of src/recovery.rs behind the bearer token. axum matches a request to a route of
-- `recovery_routes`; `Route` is the matched route with its path parameters.
use Prim.Native.Char.{code}
use Prim.Native.String as S
use text.Mathlib.TextEquality.{Char-path}
use text.Mathlib.TextLemmas.{nil-append, cons-append, nil≢cons}
use hcloud_csi_rwx.Prelude.{
  ◌∙◌, refl, ℕ, String, ◌≡◌, Bool, false, Option, none, some, List, arith, str_eq, str_eq_iff,
  and_then, option_filter, is_empty, not, if◌then◌else◌, ◌==◌, Option-cases, ◌⊎◌, inl, inr,
}
use hcloud_csi_rwx.Kube.{err, Client}
use hcloud_csi_rwx.Kube.Session.{Session, Try, pure, fail, ◌>>=◌}
use hcloud_csi_rwx.Recovery.Types.{
  Env, ApiError, StatusCode, RecoveryBackendStatus, Codec, unauthorized_status,
}
use hcloud_csi_rwx.Recovery.Handlers.{
  create, end_grace, read_client_ids, add_client_id, remove_client_id, add_revoke_fh,
}

-- `str::strip_prefix`
unfoldable pub strip_prefix : String → String → Option String
strip_prefix S.[] t = some t
strip_prefix (S.◌∷◌ c p) S.[] = none
strip_prefix (S.◌∷◌ c p) (S.◌∷◌ d t) = if code c == code d then strip_prefix p t else none

pub data Route : Type 0 where
  post_backend : Route
  put_host get_host : String → Route
  put_client delete_client : String → String → Route
  put_revoke_fh : String → String → String → Route

-- An answer: a bare status, or the status of a host as JSON.
pub data Response : Type 0 where
  status_code : StatusCode → Response
  json : RecoveryBackendStatus → Response

-- `RECOVERY_BACKEND_TOKEN`, where it is set and not empty.
unfoldable pub configured_token : Env → Option String
configured_token env = option_filter (λ t. not (is_empty t)) (env "RECOVERY_BACKEND_TOKEN")

abbrev bearer : Option String → Option String
bearer header = and_then header (strip_prefix "Bearer ")

abbrev same_token : Option String → String → Bool
same_token none expected = false
same_token (some provided) expected = str_eq provided expected

-- The middleware: `header` is the value of the Authorization header, if it is text.
unfoldable pub require_bearer :
    {W A : Type 0} → Option String → Option String → Try W ApiError A → Try W ApiError A
require_bearer none header next = next
require_bearer (some expected) header next =
    if same_token (bearer header) expected
    then next
    else fail (unauthorized_status, "invalid or missing token")

module _ {W : Type 0} (k : Client W) (env : Env) (c : Codec) where
  unfoldable pub dispatch : Route → List ℕ → Try W ApiError Response
  dispatch post_backend body = do r ← create k env c body; pure (status_code r)
  dispatch (put_host h) body = do r ← end_grace k env c h body; pure (status_code r)
  dispatch (get_host h) body = do r ← read_client_ids k env c h; pure (json r)
  dispatch (put_client h i) body = do r ← add_client_id k env c h i body; pure (status_code r)
  dispatch (delete_client h i) body = do r ← remove_client_id k env c h i; pure (status_code r)
  dispatch (put_revoke_fh h i f) body = do
    r ← add_revoke_fh k env c h i f body
    pure (status_code r)

  unfoldable pub recovery_routes : Option String → Route → List ℕ → Try W ApiError Response
  recovery_routes header route body =
      require_bearer (configured_token env) header (dispatch route body)

-- What is stripped is what stands behind the prefix, and nothing else is stripped.
pub strip_prefix_iff :
    (p t r : String)
    → (strip_prefix p t ≡ some r → t ≡ S.◌++◌ p r) × (t ≡ S.◌++◌ p r → strip_prefix p t ≡ some r)
unfolding strip_prefix
strip_prefix_iff S.[] t r = ground (arith, nil-append r)
strip_prefix_iff (S.◌∷◌ c p) S.[] r = (λ e. cc, λ e. absurd (nil≢cons (e ∙ cons-append c p r)))
strip_prefix_iff (S.◌∷◌ c p) (S.◌∷◌ d t) r =
    ground (arith, cons-append c p r, Char-path c d, strip_prefix_iff p t r)

abbrev pub same_header : Option String → String → Bool
same_header none expected = false
same_header (some header) expected = str_eq header expected

same_token_same :
    (header : Option String) (t : String)
    → same_token (bearer header) t ≡ same_header header (S.◌++◌ "Bearer " t)
same_token_same none t = refl
same_token_same (some h) t = elim (Option-cases (strip_prefix "Bearer " h)) [
  | inl e ↦ ground (arith, strip_prefix_iff "Bearer " h t, str_eq_iff h (S.◌++◌ "Bearer " t))
  | inr (u, e) ↦ ground (
    arith,
    strip_prefix_iff "Bearer " h t,
    strip_prefix_iff "Bearer " h u,
    str_eq_iff u t,
    str_eq_iff h (S.◌++◌ "Bearer " t),
  )
]

-- Where a token is configured, a request runs exactly if its header is `Bearer ` and the token;
-- otherwise it is answered 401 and nothing is sent to the cluster.
pub recovery_routes-token :
    {W : Type 0} (k : Client W) (env : Env) (c : Codec) (t : String) (header : Option String)
    (route : Route) (body : List ℕ) (s : Session W)
    → configured_token env ≡ some t
    → recovery_routes k env c header route body s ≡ (
        if same_header header (S.◌++◌ "Bearer " t)
        then dispatch k env c route body s
        else (err (unauthorized_status, "invalid or missing token"), s))
unfolding recovery_routes require_bearer fail
recovery_routes-token k env c t header route body s set =
    rw (set, same_token_same header t) (ground arith)

-- With no token in the environment, or an empty one, every request runs.
pub recovery_routes-open :
    {W : Type 0} (k : Client W) (env : Env) (c : Codec) (header : Option String) (route : Route)
    (body : List ℕ) (s : Session W)
    → (env "RECOVERY_BACKEND_TOKEN" ≡ none) ⊎ (env "RECOVERY_BACKEND_TOKEN" ≡ some "")
    → recovery_routes k env c header route body s ≡ dispatch k env c route body s
unfolding recovery_routes require_bearer configured_token
recovery_routes-open k env c header route body s (inl e) = rw e
recovery_routes-open k env c header route body s (inr e) = rw e
