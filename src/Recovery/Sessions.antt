-- ===== src/Recovery/Sessions.antt =====
-- What a ganesha process sees of the recovery backend across several requests.
use hcloud_csi_rwx.Prelude.{
  String, ◌≡◌, refl, false, none, some, List, [], ◌∷◌, arith, str_eq, str_eq_iff, is_some, contains,
  ℕ, ◌&&◌, ◌∙◌, ap, ◌||◌, not,
}
use hcloud_csi_rwx.Map.{Map, lookup, keys}
use hcloud_csi_rwx.Kube.{Result, ok, ConfigMap, Client}
use hcloud_csi_rwx.Kube.Session.{Session, ◌>>=◌, get_object}
use hcloud_csi_rwx.Kube.Store.{Store}
use hcloud_csi_rwx.Recovery.Types.{
  Env, namespace, RecoveryBackendInput, RecoveryBackendStatus, ApiError, StatusCode, Codec, cm_name,
}
use hcloud_csi_rwx.Recovery.Input.{parse_input}
use hcloud_csi_rwx.Recovery.Handlers.{
  version_of, clients_at, read_client_ids, create, add_client_id, remove_client_id, end_grace,
}
use hcloud_csi_rwx.Recovery.Hosts.{ClientsCodec, HostState, host_state, Updates}
use hcloud_csi_rwx.Recovery.Refinement.{
  add_client_id-Updates, remove_client_id-Updates, end_grace-Updates,
}
use hcloud_csi_rwx.Recovery.Creation.{create-Updates_taken}

pub contains-keys {ℓ} :
    {V : Type ℓ} (m : Map V) (j : String) → contains (keys m) j ≡ is_some (lookup j m)
unfolding lookup
contains-keys [] j = refl
contains-keys ((i, v) ∷ m) j = ground (arith, str_eq_iff i j, str_eq_iff j i, contains-keys m j)

nothing_contained : (l : List String) → ((j : String) → contains l j ≡ false) → l ≡ []
nothing_contained [] h = refl
nothing_contained (x ∷ l) h = ground (arith, h x, str_eq_iff x x)

-- The answer to a read lists exactly the clients of the current version of the state.
pub record Lists (h : HostState) (r : Result ApiError RecoveryBackendStatus) : Type 0 where
  pub status : RecoveryBackendStatus
  pub answer : r ≡ ok status
  pub listed : (j : String) → contains status.clients j ≡ is_some (h.client h.version j)

module _ {W : Type 0} (k : Client W) (env : Env) (c : Codec)
    (st : Store (k.config_maps (namespace env))) where
  -- Reading a host whose ConfigMap exists on a healthy API server lists exactly the clients of its
  -- current version, and changes nothing.
  pub read_client_ids-Lists :
      (hostname : String) (cm : ConfigMap) (s : Session W)
      → st.find s.world (cm_name hostname) ≡ some cm
      → Lists (host_state c cm) (read_client_ids k env c hostname s).0
        × ((read_client_ids k env c hostname s).1.world ≡ s.world)
  unfolding read_client_ids ◌>>=◌ get_object
  read_client_ids-Lists hostname cm s found =
      rw (st.get_found s.world (cm_name hostname) cm found) (
        record {
          status = _;
          answer = refl;
          listed = λ j. contains-keys (clients_at c cm (version_of cm)) j;
        },
        refl,
      )

  -- A read after a handler lists the clients of the state that the handler promises.
  pub read-Updates :
      (hostname : String) {expected : HostState} {before : W}
      {r : Result ApiError StatusCode × Session W}
      → Updates k env c st (cm_name hostname) expected before r
      → Lists expected (read_client_ids k env c hostname r.1).0
  read-Updates hostname {expected = expected} {r = r} u =
      let l = (read_client_ids-Lists hostname u.cm r.1 u.found).0 in
      record {
        status = l.status;
        answer = l.answer;
        listed = λ j.
            l.listed j
            ∙ ap is_some (
                ap (λ v. (host_state c u.cm).client v j) u.state.version
                ∙ u.state.client expected.version j);
      }

  -- A read finds no client at all.
  abbrev pub ListsNothing : Result ApiError RecoveryBackendStatus → Type 0
  ListsNothing r = (status : RecoveryBackendStatus) × (r ≡ ok status) × (status.clients ≡ [])

  no_clients :
      {h : HostState} {r : Result ApiError RecoveryBackendStatus}
      → Lists h r
      → ((j : String) → h.client h.version j ≡ none)
      → ListsNothing r
  no_clients l empty = (
    l.status,
    l.answer,
    nothing_contained l.status.clients λ j. l.listed j ∙ ap is_some (empty j),
  )

  module _ (law : ClientsCodec c) (hostname : String) (cm : ConfigMap) (s : Session W)
      (found : st.find s.world (cm_name hostname) ≡ some cm) (body : List ℕ)
      (input : RecoveryBackendInput) (parsed : parse_input c body ≡ ok input) where
    -- For a host whose ConfigMap exists on a healthy API server, with a codec that reads back what
    -- it writes: after a client is added with a body of the current version, a read lists it and
    -- those listed before.
    pub read-add_client_id :
        (client_id : String)
        → input.version ≡ version_of cm
        → (status : RecoveryBackendStatus) × ((read_client_ids k env c hostname
              (add_client_id k env c hostname client_id body s).1).0
            ≡ ok status)
          × ((j : String)
              → contains status.clients j
                ≡ (str_eq j client_id || is_some (lookup j (clients_at c cm (version_of cm)))))
    read-add_client_id client_id current =
        let l =
          read-Updates hostname (
            add_client_id-Updates k env c st law hostname cm s found body input parsed client_id) in
        (
          l.status,
          l.answer,
          λ j. l.listed j ∙ ground (arith, current, str_eq_iff (version_of cm) input.version),
        )

    -- For a host whose ConfigMap exists on a healthy API server, with a codec that reads back what
    -- it writes: after a removal, a read lists all clients that were current but the removed one.
    pub read-remove_client_id :
        (client_id : String)
        → (status : RecoveryBackendStatus) × ((read_client_ids k env c hostname
              (remove_client_id k env c hostname client_id s).1).0
            ≡ ok status)
          × ((j : String)
              → contains status.clients j ≡ (
                  not (str_eq j client_id) && is_some (lookup j (clients_at c cm (version_of cm)))))
    read-remove_client_id client_id =
        let l =
          read-Updates hostname
            (remove_client_id-Updates k env c st law hostname cm s found client_id) in
        (
          l.status,
          l.answer,
          λ j. l.listed j ∙ ground (arith, str_eq_iff (version_of cm) (version_of cm)),
        )

    -- For a host whose ConfigMap exists on a healthy API server, with a codec that reads back what
    -- it writes and a body that names it: whatever clients the host has, after creation a read
    -- lists none.
    pub read-create :
        input.hostname ≡ some hostname
        → ListsNothing (read_client_ids k env c hostname (create k env c body s).1).0
    read-create named =
        no_clients
          (read-Updates hostname
            (create-Updates_taken k env c st law hostname s body input parsed named cm found))
          λ j. ground (arith, str_eq_iff input.version input.version)

    -- For a host whose ConfigMap exists on a healthy API server, with a codec that reads back what
    -- it writes and a body whose version is current already: after the end of grace a read lists no
    -- client.
    pub read-end_grace :
        input.version ≡ version_of cm
        → ListsNothing (read_client_ids k env c hostname (end_grace k env c hostname body s).1).0
    read-end_grace current =
        no_clients
          (read-Updates hostname
            (end_grace-Updates k env c st law hostname cm s found body input parsed))
          λ j. ground (
            arith,
            current,
            str_eq_iff input.version input.version,
            str_eq_iff input.version (version_of cm),
          )
