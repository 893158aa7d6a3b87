-- ===== src/Tests/Backend.antt =====
-- The recovery backend on a cluster in memory: a host with the version `v1` and the client `c1`.
use hcloud_csi_rwx.Prelude.{
  ℕ, String, ◌≡◌, refl, none, some, List, [], ◌∷◌, ◌==◌, ◌||◌, not, ◌&&◌, if◌then◌else◌, is_some,
  contains, str_eq,
}
use Prim.Native.String as S
use hcloud_csi_rwx.Map.{lookup}
use hcloud_csi_rwx.Kube.{Result, ok, err, ConfigMap}
use hcloud_csi_rwx.Kube.Session.{Session}
use hcloud_csi_rwx.Recovery.Types.{
  Env, Codec, RecoveryBackendInput, RecoveryBackendStatus, cm_name, bad_request,
  unauthorized_status,
}
use hcloud_csi_rwx.Recovery.Input.{parse_input}
use hcloud_csi_rwx.Recovery.Handlers.{
  version_of, clients_at, read_client_ids, add_client_id, remove_client_id, end_grace, create,
}
use hcloud_csi_rwx.Recovery.Hosts.{ClientsCodec, Updates, host_state}
use hcloud_csi_rwx.Recovery.Refinement.{grace_ended, end_grace-Updates}
use hcloud_csi_rwx.Recovery.Sessions.{
  ListsNothing, read-add_client_id, read-remove_client_id, read-create, read-end_grace,
}
use hcloud_csi_rwx.Recovery.Router.{
  get_host, same_header, configured_token, dispatch, recovery_routes, recovery_routes-token,
}
use hcloud_csi_rwx.Tests.Clients.{write_clients, read_clients, read-write_clients}
use hcloud_csi_rwx.Tests.Cluster.{Cluster, cluster, empty_cluster, map_store}

abbrev pub env : Env
env = λ name. none

abbrev guarded : Env
guarded = λ name. if str_eq name "RECOVERY_BACKEND_TOKEN" then some "secret" else none

-- The first byte of a body stands for the version in it.
abbrev read_body : List ℕ → Result String RecoveryBackendInput
read_body [] = err "EOF while parsing a value"
read_body (b ∷ bs) = ok (record {
  hostname = some (if b == b'3' then "nfs-2" else "nfs-1");
  version = if b == b'1' then "v1" else "v2";
})

abbrev pub codec : Codec
codec = record {
  input_from_slice = read_body;
  clients_from_str = read_clients;
  clients_to_string = λ m. ok (write_clients m);
  status_from_u16 = λ n. some n;
  kube_to_string = λ e. "ApiError";
}

pub empty_read : read_clients "{}" ≡ ok []
unfolding read_clients
empty_read = refl

pub nothing_read : read_clients "" ≡ err "EOF while parsing a value"
unfolding read_clients
nothing_read = refl

abbrev pub law : ClientsCodec codec
law = record {
  round = λ m. (write_clients m, refl, (m, read-write_clients m, λ j. refl));
  empty_object = empty_read;
  refusal = "EOF while parsing a value";
  empty_text = nothing_read;
}

abbrev pub cm : ConfigMap
cm = record {
  name = some "recovery-backend-nfs-1";
  namespace = some "hcloud-csi-rwx";
  annotations = some (("version", "v1") ∷ []);
  entries = some (("v1", write_clients (("c1", "fh1" ∷ []) ∷ [])) ∷ []);
}

abbrev pub session : Session Cluster
session = record {
  world = record empty_cluster { config_maps = ("recovery-backend-nfs-1", cm) ∷ [] };
  calls = [];
}

abbrev nothing_yet : Session Cluster
nothing_yet = record { world = empty_cluster; calls = [] }

abbrev pub body_v1 : List ℕ
body_v1 = b'1' ∷ []

abbrev pub body_v2 : List ℕ
body_v2 = b'2' ∷ 0 ∷ []

abbrev input_v1 : RecoveryBackendInput
input_v1 = record { hostname = some "nfs-1"; version = "v1" }

abbrev input_v2 : RecoveryBackendInput
input_v2 = record { hostname = some "nfs-1"; version = "v2" }

parsed_v1 : parse_input codec body_v1 ≡ ok input_v1
unfolding parse_input
parsed_v1 = refl

parsed_v2 : parse_input codec body_v2 ≡ ok input_v2
unfolding parse_input
parsed_v2 = refl

pub found : map_store.find session.world (cm_name "nfs-1") ≡ some cm
unfolding lookup cm_name
found = refl

absent : map_store.find nothing_yet.world (cm_name "nfs-1") ≡ none
unfolding lookup cm_name
absent = refl

end_grace-Updates_example :
    Updates cluster env codec map_store
      (cm_name "nfs-1")
      (grace_ended "v2" (host_state codec cm))
      session.world
      (end_grace cluster env codec "nfs-1" body_v2 session)
end_grace-Updates_example =
    end_grace-Updates cluster env codec map_store law "nfs-1" cm session found body_v2 input_v2
      parsed_v2

current_v1 : input_v1.version ≡ version_of cm
unfolding lookup
current_v1 = refl

read-add_client_id_example :
    (status : RecoveryBackendStatus) × ((read_client_ids cluster env codec "nfs-1"
        (add_client_id cluster env codec "nfs-1" "c2" body_v1 session).1).0
      ≡ ok status)
    × ((j : String)
        → contains status.clients j
          ≡ (str_eq j "c2" || is_some (lookup j (clients_at codec cm (version_of cm)))))
read-add_client_id_example =
    read-add_client_id cluster env codec map_store law "nfs-1" cm session found body_v1 input_v1
      parsed_v1 "c2" current_v1

read-remove_client_id_example :
    (status : RecoveryBackendStatus) × ((read_client_ids cluster env codec "nfs-1"
        (remove_client_id cluster env codec "nfs-1" "c1" session).1).0
      ≡ ok status)
    × ((j : String)
        → contains status.clients j
          ≡ (not (str_eq j "c1") && is_some (lookup j (clients_at codec cm (version_of cm)))))
read-remove_client_id_example =
    read-remove_client_id cluster env codec map_store law "nfs-1" cm session found body_v1 input_v1
      parsed_v1 "c1"

read-create_example :
    ListsNothing cluster env codec map_store
      (read_client_ids cluster env codec "nfs-1" (create cluster env codec body_v2 session).1).0
read-create_example =
    read-create cluster env codec map_store law "nfs-1" cm session found body_v2 input_v2 parsed_v2
      refl

read-end_grace_example :
    ListsNothing cluster env codec map_store
      (read_client_ids cluster env codec "nfs-1"
        (end_grace cluster env codec "nfs-1" body_v1 session).1).0
read-end_grace_example =
    read-end_grace cluster env codec map_store law "nfs-1" cm session found body_v1 input_v1
      parsed_v1 current_v1

token_set : configured_token guarded ≡ some "secret"
unfolding configured_token
token_set = refl

recovery_routes-token_example :
    recovery_routes cluster guarded codec (some "Bearer wrong") (get_host "nfs-1") [] session ≡ (
      if same_header (some "Bearer wrong") (S.◌++◌ "Bearer " "secret")
      then dispatch cluster guarded codec (get_host "nfs-1") [] session
      else (err (unauthorized_status, "invalid or missing token"), session))
recovery_routes-token_example =
    recovery_routes-token cluster guarded codec "secret" (some "Bearer wrong") (get_host "nfs-1") []
      session token_set

unreadable : parse_input codec (0 ∷ []) ≡ err (400, "EOF while parsing a value")
unfolding parse_input bad_request
unreadable = refl
