-- ===== src/Recovery/Traces.antt =====
-- The recovery backend along any sequence of requests, of one share-manager or of several at once.
pub mod Congruence
pub mod Changes
pub mod Agreement
use hcloud_csi_rwx.Prelude.{
  ℕ, String, refl, Option, List, [], ◌∷◌, str_eq, option_map, if◌then◌else◌, ◌∙◌, inl, inr, none,
  ◌≡◌, some, Bool-cases, str_eq_iff, Option-cases, unwrap_or,
}
use hcloud_csi_rwx.Kube.{Result, ok, err, Result-cases, Client, ConfigMap}
use hcloud_csi_rwx.Recovery.Types.{
  RecoveryBackendInput, ApiError, Codec, cm_name, namespace, StatusCode,
}
use hcloud_csi_rwx.Recovery.Input.{parse_input}
use hcloud_csi_rwx.Recovery.Hosts.{HostState, SameState, ClientsCodec, host_state, Updates}
use hcloud_csi_rwx.Recovery.Refinement.{
  version_created, client_added, client_removed, handle_revoked, grace_ended,
  remove_client_id-Updates, add_client_id-Updates, add_revoke_fh-Updates, end_grace-Updates,
}
use hcloud_csi_rwx.Recovery.Creation.{no_host}
use hcloud_csi_rwx.Provision.Config.{Env}
use hcloud_csi_rwx.Kube.Store.{Store}
use hcloud_csi_rwx.Kube.Session.{Session, Try, ◌>>=◌, get_object}
use hcloud_csi_rwx.Recovery.Handlers.{
  create, add_client_id, remove_client_id, add_revoke_fh, end_grace,
}

-- A change that a share-manager asks for, with its body where it has one.
pub data Change : Type 0 where
  add : String → List ℕ → Change
  forget : String → Change
  revoke : String → String → List ℕ → Change
  finish_grace : List ℕ → Change

-- Creation names the host in its body, a change in its path.
pub data Request : Type 0 where
  begin : List ℕ → Request
  on_host : String → Change → Request

-- The state of each host that there is, by the name of its ConfigMap.
abbrev pub Backend : Type 0
Backend = String → Option HostState

-- What a change makes of the state of its host: nothing where its body cannot be read.
abbrev pub if_read :
    Result ApiError RecoveryBackendInput
    → (RecoveryBackendInput → HostState → HostState)
    → HostState
    → HostState
if_read (ok input) f h = f input h
if_read (err e) f h = h

abbrev pub changed : Codec → Change → HostState → HostState
changed c (add client_id body) =
    if_read (parse_input c body) (λ i. client_added i.version client_id)
changed c (forget client_id) = client_removed client_id
changed c (revoke client_id fh body) =
    if_read (parse_input c body) (λ i. handle_revoked i.version client_id fh)
changed c (finish_grace body) = if_read (parse_input c body) (λ i. grace_ended i.version)

-- Creation for a host: its version is the current one, whether it was there before or not.
abbrev pub host_created : Option String → String → Backend → Backend
host_created none version b = b
host_created (some hostname) version b = λ m.
    if str_eq m (cm_name hostname)
    then some (version_created version (unwrap_or (b m) no_host))
    else b m

abbrev pub begun : Result ApiError RecoveryBackendInput → Backend → Backend
begun (ok input) b = host_created input.hostname input.version b
begun (err e) b = b

abbrev pub step : Codec → Request → Backend → Backend
step c (begin body) b = begun (parse_input c body) b
step c (on_host hostname x) b =
    λ m. if str_eq m (cm_name hostname) then option_map (changed c x) (b m) else b m

abbrev pub steps : Codec → List Request → Backend → Backend
steps c [] b = b
steps c (r ∷ rs) b = steps c rs (step c r b)

module _ {W : Type 0} (k : Client W) (env : Env) (c : Codec) where
  unfoldable pub perform_change : String → Change → Try W ApiError StatusCode
  perform_change hostname (add client_id body) = add_client_id k env c hostname client_id body
  perform_change hostname (forget client_id) = remove_client_id k env c hostname client_id
  perform_change hostname (revoke client_id fh body) =
      add_revoke_fh k env c hostname client_id fh body
  perform_change hostname (finish_grace body) = end_grace k env c hostname body

  unfoldable pub perform : Request → Try W ApiError StatusCode
  perform (begin body) = create k env c body
  perform (on_host hostname x) = perform_change hostname x

  -- The world after a sequence of requests, whatever each of them answers.
  unfoldable pub perform_all : List Request → Session W → Session W
  perform_all [] s = s
  perform_all (r ∷ rs) s = perform_all rs (perform r s).1
