-- ===== src/Recovery/Refinement.antt =====
-- Each handler of the recovery backend against what it promises on the state of its host.
use hcloud_csi_rwx.Prelude.{
  ℕ, String, ◌≡◌, refl, none, some, List, [], ◌∷◌, ◌++◌, ◌&&◌, arith, str_eq, str_eq_iff, unwrap_or,
  if◌then◌else◌, and_then,
}
use hcloud_csi_rwx.Map.{
  remove, lookup-insert, lookup-or_insert, lookup-remove, lookup, Map, or_insert, insert,
}
use hcloud_csi_rwx.Kube.{ok, ConfigMap, Client, MergePatch}
use hcloud_csi_rwx.Kube.Session.{Session, ◌>>=◌, get_object, get}
use hcloud_csi_rwx.Kube.Store.{Store, merge, lookup-merge_map, lookup-put, lookup-unwrap_or}
use hcloud_csi_rwx.Recovery.Types.{Env, namespace, RecoveryBackendInput, Codec, cm_name, Clients}
use hcloud_csi_rwx.Recovery.Input.{parse_input}
use hcloud_csi_rwx.Recovery.Handlers.{
  version_of, clients_at, with_client, with_revoke_fh, write_clients, add_client_id, cm_api,
  remove_client_id, end_grace, add_revoke_fh, data_str,
}
use hcloud_csi_rwx.Recovery.Hosts.{
  ClientsCodec, HostState, host_state, Updates, Updates-same, write_clients-Updates, patch-Updates,
}

-- The client is recorded under the version; its file handles stay, if it was there.
abbrev pub client_added : String → String → HostState → HostState
client_added version client_id h = record h {
  client = λ v j.
      if str_eq v version && str_eq j client_id
      then some (unwrap_or (h.client version client_id) [])
      else h.client v j;
}

-- The handle is appended to those of the client, who is recorded if it was not.
abbrev pub handle_revoked : String → String → String → HostState → HostState
handle_revoked version client_id fh h = record h {
  client = λ v j.
      if str_eq v version && str_eq j client_id
      then some (unwrap_or (h.client version client_id) [] ++ fh ∷ [])
      else h.client v j;
}

-- The client is forgotten in the current version.
abbrev pub client_removed : String → HostState → HostState
client_removed client_id h = record h {
  client = λ v j. if str_eq v h.version && str_eq j client_id then none else h.client v j;
}

-- The version becomes current. The clients of every version stay, but for those of a version that
-- was current already: they are dropped.
abbrev pub grace_ended : String → HostState → HostState
grace_ended version h = record {
  version = version;
  client = λ v j. if str_eq v version && str_eq version h.version then none else h.client v j;
}

-- The version becomes current, with no clients.
abbrev pub version_created : String → HostState → HostState
version_created version h = record {
  version = version;
  client = λ v j. if str_eq v version then none else h.client v j;
}

abbrev ended_annotations : ConfigMap → String → Map String
ended_annotations cm version = insert "version" version (unwrap_or cm.annotations [])

abbrev ended_entries : ConfigMap → String → Map String
ended_entries cm version = or_insert version "{}" (remove (version_of cm) (unwrap_or cm.entries []))

abbrev ended : ConfigMap → String → MergePatch
ended cm version = record {
  annotations = some (ended_annotations cm version);
  entries = some (ended_entries cm version);
}

version_of-ended :
    (cm : ConfigMap) (version : String) → version_of (merge (ended cm version) cm) ≡ version
version_of-ended cm version =
    rw (lookup-put "version" "version" version cm.annotations)
      (ground (arith, str_eq_iff "version" "version"))

lookup-ended_entries :
    (cm : ConfigMap) (version v : String)
    → lookup v (ended_entries cm version) ≡ (
        if str_eq v version
        then some (
            if str_eq version (version_of cm)
            then "{}"
            else unwrap_or (and_then cm.entries (lookup version)) "{}")
        else if str_eq v (version_of cm)
        then none
        else and_then cm.entries (lookup v))
lookup-ended_entries cm version v =
    rw
      (
        lookup-or_insert v version "{}" (remove (version_of cm) (unwrap_or cm.entries [])),
        lookup-remove v (version_of cm) (unwrap_or cm.entries []),
        lookup-remove version (version_of cm) (unwrap_or cm.entries []),
        lookup-unwrap_or v cm.entries,
        lookup-unwrap_or version cm.entries,
      )
      (ground arith)

data_str-ended :
    (cm : ConfigMap) (version v : String)
    → data_str (merge (ended cm version) cm) v ≡ (
        if str_eq v version
        then if str_eq version (version_of cm)
          then "{}"
          else unwrap_or (and_then cm.entries (lookup version)) "{}"
        else data_str cm v)
data_str-ended cm version v =
    rw (lookup-merge_map v (ended_entries cm version) cm.entries, lookup-ended_entries cm version v)
      (ground arith)

clients_at-ended :
    (c : Codec) (law : ClientsCodec c) (cm : ConfigMap) (version v j : String)
    → lookup j (clients_at c (merge (ended cm version) cm) v) ≡ (
        if str_eq v version && str_eq version (version_of cm)
        then none
        else lookup j (clients_at c cm v))
unfolding clients_at lookup
clients_at-ended c law cm version v j =
    rw (data_str-ended cm version v)
      (ground (arith, law.empty_object, law.empty_text, str_eq_iff v version))

module _ {W : Type 0} (k : Client W) (env : Env) (c : Codec)
    (st : Store (k.config_maps (namespace env))) (law : ClientsCodec c) where
  module _ (hostname : String) (cm : ConfigMap) (s : Session W)
      (found : st.find s.world (cm_name hostname) ≡ some cm) where
    abbrev after_get : Session W
    after_get = record s { calls = get (cm_api k env c).kind (cm_name hostname) ∷ s.calls }

    written :
        (version : String) (m : Clients) (expected : HostState)
        → version_of cm ≡ expected.version
        → ((v j : String)
            → (if str_eq v version then lookup j m else lookup j (clients_at c cm v))
              ≡ expected.client v j)
        → Updates k env c st
            (cm_name hostname)
            expected
            s.world
            (write_clients k env c (cm_name hostname) cm version m after_get)
    written version m expected same_version same_clients =
        Updates-same k env c st (record { version = same_version; client = same_clients })
          (write_clients-Updates k env c st law (cm_name hostname) version cm m after_get found)

    -- For a host whose ConfigMap exists on a healthy API server, with a codec that reads back what
    -- it writes: removing a client answers 200, takes it out of the current version, and changes
    -- nothing else.
    pub remove_client_id-Updates :
        (client_id : String)
        → Updates k env c st
            (cm_name hostname)
            (client_removed client_id (host_state c cm))
            s.world
            (remove_client_id k env c hostname client_id s)
    unfolding remove_client_id ◌>>=◌ get_object
    remove_client_id-Updates client_id = rw (st.get_found s.world (cm_name hostname) cm found) (
        written (version_of cm) _ _ refl
          λ v j. rw lookup-remove (ground (arith, str_eq_iff v (version_of cm))))

    module _ (body : List ℕ) (input : RecoveryBackendInput)
        (parsed : parse_input c body ≡ ok input) where
      -- For a host whose ConfigMap exists on a healthy API server, with a codec that reads back
      -- what it writes and a body that is read: adding a client answers 200, records it under the
      -- version of the body with the file handles it had, and changes nothing else.
      pub add_client_id-Updates :
          (client_id : String)
          → Updates k env c st
              (cm_name hostname)
              (client_added input.version client_id (host_state c cm))
              s.world
              (add_client_id k env c hostname client_id body s)
      unfolding add_client_id ◌>>=◌ get_object with_client
      add_client_id-Updates client_id =
          rw (parsed, st.get_found s.world (cm_name hostname) cm found)
            (written input.version _ _ refl
              λ v j. rw lookup-or_insert (ground (arith, str_eq_iff v input.version)))

      -- For a host whose ConfigMap exists on a healthy API server, with a codec that reads back
      -- what it writes and a body that is read: revoking a file handle answers 200, appends it to
      -- those of the client under the version of the body, and changes nothing else.
      pub add_revoke_fh-Updates :
          (client_id fh : String)
          → Updates k env c st
              (cm_name hostname)
              (handle_revoked input.version client_id fh (host_state c cm))
              s.world
              (add_revoke_fh k env c hostname client_id fh body s)
      unfolding add_revoke_fh ◌>>=◌ get_object with_revoke_fh
      add_revoke_fh-Updates client_id fh =
          rw (parsed, st.get_found s.world (cm_name hostname) cm found)
            (written input.version _ _ refl
              λ v j. rw lookup-insert (ground (arith, str_eq_iff v input.version)))

      -- For a host whose ConfigMap exists on a healthy API server, with a codec that reads back
      -- what it writes and a body that is read: ending grace answers 200, changes no other
      -- ConfigMap, and makes the version of the body current. It keeps the clients of every
      -- version, the one before included, but for those of the version of the body where that was
      -- current already.
      pub end_grace-Updates :
          Updates k env c st
            (cm_name hostname)
            (grace_ended input.version (host_state c cm))
            s.world
            (end_grace k env c hostname body s)
      unfolding end_grace ◌>>=◌ get_object
      end_grace-Updates =
          rw (parsed, st.get_found s.world (cm_name hostname) cm found)
            (patch-Updates k env c st (cm_name hostname) (ended cm input.version) cm _ after_get
              found
              (record {
                version = version_of-ended cm input.version;
                client = clients_at-ended c law cm input.version;
              }))
