-- ===== src/Recovery/Handlers.antt =====
-- The handlers of src/recovery.rs.
use hcloud_csi_rwx.Prelude.{
  ℕ, String, none, some, List, [], ◌∷◌, ◌++◌, unwrap_or, and_then, ◌==◌, if◌then◌else◌,
}
use hcloud_csi_rwx.Map.{Map, lookup, insert, remove, or_insert, keys}
use hcloud_csi_rwx.Kube.{KubeError, api, other, Result, ok, err, ConfigMap, MergePatch, Client}
use hcloud_csi_rwx.Kube.Session.{
  Try, pure, fail, or_fail, lift, attempt, map_err, recode, ◌>>=◌, ◌>>◌, Handle, config_maps_in,
  get_object, create_object, patch_object,
}
use hcloud_csi_rwx.Recovery.Types.{
  Env, namespace, RecoveryBackendStatus, StatusCode, ApiError, Clients, Codec, ok_status,
  bad_request_status, internal_status, kube_error, cm_name,
}
use hcloud_csi_rwx.Recovery.Input.{parse_input}

-- The annotation that names the current version.
abbrev pub version_of : ConfigMap → String
version_of cm = unwrap_or (and_then cm.annotations (lookup "version")) ""

-- `data_str` of the handlers: the text kept under a version.
abbrev pub data_str : ConfigMap → String → String
data_str cm version = unwrap_or (and_then cm.entries (lookup version)) ""

abbrev or_default : Result String Clients → Clients
or_default (ok m) = m
or_default (err e) = []

-- The clients kept under a version; what does not parse counts as no clients.
unfoldable pub clients_at : Codec → ConfigMap → String → Clients
clients_at c cm version = or_default (c.clients_from_str (data_str cm version))

-- `data.entry(client_id).or_default()`
unfoldable pub with_client : String → Clients → Clients
with_client client_id m = or_insert client_id [] m

-- `data.entry(client_id).or_default().push(revoke_fh)`
unfoldable pub with_revoke_fh : String → String → Clients → Clients
with_revoke_fh client_id revoke_fh m =
    insert client_id (unwrap_or (lookup client_id m) [] ++ revoke_fh ∷ []) m

abbrev pub entries_patch : Map String → MergePatch
entries_patch m = record { annotations = none; entries = some m }

abbrev pub version_patch : String → Map String → MergePatch
version_patch version m = record {
  annotations = some (("version", version) ∷ []);
  entries = some m;
}

abbrev pub new_config_map : String → String → String → ConfigMap
new_config_map name ns version = record {
  name = some name;
  namespace = some ns;
  annotations = some (("version", version) ∷ []);
  entries = some ((version, "{}") ∷ []);
}

module _ {W : Type 0} (k : Client W) (env : Env) (c : Codec) where
  abbrev pub cm_api : Handle W ConfigMap
  cm_api = config_maps_in k (namespace env)

  -- The last part of the handlers that write clients: encode them, put them under the version and
  -- send the data.
  unfoldable pub write_clients : String → ConfigMap → String → Clients → Try W ApiError StatusCode
  write_clients name cm version m = do
    new_data ← lift (recode (λ e. (internal_status, e)) (c.clients_to_string m))
    let cm_data = insert version new_data (unwrap_or cm.entries [])
    map_err (kube_error c) (patch_object cm_api name (entries_patch cm_data))
    pure ok_status

  -- The answer of the API to the creation: 409 means that it exists, and the version is updated.
  created : String → String → Result KubeError ConfigMap → Try W ApiError StatusCode
  created name version (ok _) = pure ok_status
  created name version (err (api code m)) =
      if code == 409
      then (do
        map_err (kube_error c)
            (patch_object cm_api name (version_patch version ((version, "{}") ∷ [])))
        pure ok_status)
      else fail (kube_error c (api code m))
  created name version (err (other m)) = fail (kube_error c (other m))

  unfoldable pub create : List ℕ → Try W ApiError StatusCode
  unfolding created
  create body = do
    input ← lift (parse_input c body)
    hostname ← or_fail input.hostname (bad_request_status, "hostname required in body")
    let name = cm_name hostname
    r ← attempt (create_object cm_api (new_config_map name (namespace env) input.version))
    created name input.version r

  unfoldable pub end_grace : String → List ℕ → Try W ApiError StatusCode
  end_grace hostname body = do
    input ← lift (parse_input c body)
    let name = cm_name hostname
    cm ← map_err (kube_error c) (get_object cm_api name)
    let annotations = insert "version" input.version (unwrap_or cm.annotations [])
    let entries = or_insert input.version "{}" (remove (version_of cm) (unwrap_or cm.entries []))
    map_err (kube_error c) (
        patch_object cm_api name
          (record { annotations = some annotations; entries = some entries }))
    pure ok_status

  unfoldable pub add_client_id : String → String → List ℕ → Try W ApiError StatusCode
  add_client_id hostname client_id body = do
    input ← lift (parse_input c body)
    let name = cm_name hostname
    cm ← map_err (kube_error c) (get_object cm_api name)
    write_clients name cm input.version (with_client client_id (clients_at c cm input.version))

  unfoldable pub remove_client_id : String → String → Try W ApiError StatusCode
  remove_client_id hostname client_id = do
    let name = cm_name hostname
    cm ← map_err (kube_error c) (get_object cm_api name)
    let version = version_of cm
    write_clients name cm version (remove client_id (clients_at c cm version))

  unfoldable pub read_client_ids : String → Try W ApiError RecoveryBackendStatus
  read_client_ids hostname = do
    cm ← map_err (kube_error c) (get_object cm_api (cm_name hostname))
    pure (record {
      id = hostname;
      typ = "recoveryBackendStatus";
      hostname = hostname;
      clients = keys (clients_at c cm (version_of cm));
    })

  unfoldable pub add_revoke_fh : String → String → String → List ℕ → Try W ApiError StatusCode
  add_revoke_fh hostname client_id revoke_fh body = do
    input ← lift (parse_input c body)
    let name = cm_name hostname
    cm ← map_err (kube_error c) (get_object cm_api name)
    write_clients name cm input.version
        (with_revoke_fh client_id revoke_fh (clients_at c cm input.version))
