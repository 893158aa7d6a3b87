-- ===== src/Recovery/Types.antt =====
-- The data of src/recovery.rs, and the functions of other crates that it calls.
use hcloud_csi_rwx.Prelude.{
  ℕ, String, Option, List, [], ◌∷◌, unwrap_or, option_filter, is_empty, not, format,
}
use hcloud_csi_rwx.Map.{Map}
use hcloud_csi_rwx.Kube.{KubeError, api, other, Result}

-- `std::env::var(name).ok()`
abbrev pub Env : Type 0
Env = String → Option String

unfoldable pub namespace : Env → String
namespace env =
    unwrap_or (option_filter (λ v. not (is_empty v)) (env "RECOVERY_BACKEND_NAMESPACE"))
      "hcloud-csi-rwx"

pub record RecoveryBackendInput : Type 0 where
  pub hostname : Option String
  pub version : String

pub record RecoveryBackendStatus : Type 0 where
  pub id : String
  pub typ : String
  pub hostname : String
  pub clients : List String

abbrev pub StatusCode : Type 0
StatusCode = ℕ

abbrev pub ApiError : Type 0
ApiError = StatusCode × String

abbrev pub ApiResult : Type 0 → Type 0
ApiResult A = Result ApiError A

-- The clients of one version: the client ids, each with its revoked file handles.
abbrev pub Clients : Type 0
Clients = Map (List String)

-- serde_json, `StatusCode::from_u16` and the text of a `kube::Error`.
pub record Codec : Type 0 where
  pub input_from_slice : List ℕ → Result String RecoveryBackendInput
  pub clients_from_str : String → Result String Clients
  pub clients_to_string : Clients → Result String String
  pub status_from_u16 : ℕ → Option StatusCode
  pub kube_to_string : KubeError → String

abbrev pub ok_status : StatusCode
ok_status = 200

abbrev pub bad_request_status : StatusCode
bad_request_status = 400

abbrev pub unauthorized_status : StatusCode
unauthorized_status = 401

abbrev pub internal_status : StatusCode
internal_status = 500

unfoldable pub bad_request : String → ApiError
bad_request e = (bad_request_status, e)

-- The closest HTTP status of a failed request.
unfoldable pub kube_error : Codec → KubeError → ApiError
kube_error c (api code m) =
    (unwrap_or (c.status_from_u16 code) internal_status, c.kube_to_string (api code m))
kube_error c (other m) = (internal_status, c.kube_to_string (other m))

unfoldable pub cm_name : String → String
cm_name hostname = format ("recovery-backend-" ∷ hostname ∷ [])
