-- ===== src/Recovery/Hosts.antt =====
-- The recovery backend as its clients see it: for each host the current version, and for each
-- version the recorded clients with their revoked file handles. `Updates` says of a handler that it
-- answers 200, makes the state of one host the expected one, and leaves all other hosts alone.
use hcloud_csi_rwx.Prelude.{
  String, ◌≡◌, refl, Option, some, List, [], arith, str_eq, str_eq_iff, unwrap_or, if◌then◌else◌,
  Bool-cases, inl, inr, ◌∙◌,
}
use hcloud_csi_rwx.Map.{lookup, insert}
use hcloud_csi_rwx.Kube.{Result, ok, ConfigMap, Client, err, MergePatch}
use hcloud_csi_rwx.Kube.Session.{Session, ◌>>=◌, patch_object, map_err, ◌>>◌, pure}
use hcloud_csi_rwx.Kube.Store.{Store, merge, lookup-put}
use hcloud_csi_rwx.Recovery.Types.{
  Env, namespace, ApiError, StatusCode, Clients, Codec, ok_status, kube_error,
}
use hcloud_csi_rwx.Recovery.Handlers.{
  version_of, data_str, clients_at, write_clients, entries_patch, cm_api,
}

-- What serde_json promises of the client map: writing it succeeds and reading it back gives the same
-- entries, `{}` reads as no entry, and the empty text is refused.
pub record ClientsCodec (c : Codec) : Type 0 where
  pub round :
      (m : Clients)
      → (text : String) × (c.clients_to_string m ≡ ok text)
        × ((back : Clients) × (c.clients_from_str text ≡ ok back)
            × ((j : String) → lookup j back ≡ lookup j m))
  pub empty_object : c.clients_from_str "{}" ≡ ok []
  pub refusal : String
  pub empty_text : c.clients_from_str "" ≡ err refusal

pub record HostState : Type 0 where
  pub version : String
  pub client : String → String → Option (List String)

abbrev pub host_state : Codec → ConfigMap → HostState
host_state c cm = record { version = version_of cm; client = λ v j. lookup j (clients_at c cm v) }

pub record SameState (a b : HostState) : Type 0 where
  pub version : a.version ≡ b.version
  pub client : (v j : String) → a.client v j ≡ b.client v j

pub data_str-put :
    (cm : ConfigMap) (version text v : String)
    → data_str (merge (entries_patch (insert version text (unwrap_or cm.entries []))) cm) v
      ≡ (if str_eq v version then text else data_str cm v)
data_str-put cm version text v = rw (lookup-put v version text cm.entries) (ground arith)

clients_at-put :
    (c : Codec) (cm : ConfigMap) (version text : String) (m back : Clients)
    → c.clients_from_str text ≡ ok back
    → ((j : String) → lookup j back ≡ lookup j m)
    → (v j : String)
    → lookup j
        (clients_at c (merge (entries_patch (insert version text (unwrap_or cm.entries []))) cm) v)
      ≡ (if str_eq v version then lookup j m else lookup j (clients_at c cm v))
unfolding clients_at
clients_at-put c cm version text m back read same v j =
    rw (data_str-put cm version text v)
      (elim (Bool-cases (str_eq v version)) [ inl e ↦ rw (e, read) (same j) | inr e ↦ rw e ])

module _ {W : Type 0} (k : Client W) (env : Env) (c : Codec)
    (st : Store (k.config_maps (namespace env))) where
  -- `r` is the answer and the session that a handler reached from the session `s`.
  pub record Updates (name : String) (expected : HostState) (before : W)
      (r : Result ApiError StatusCode × Session W) : Type 0 where
    pub answer : r.0 ≡ ok ok_status
    pub cm : ConfigMap
    pub found : st.find r.1.world name ≡ some cm
    pub state : SameState (host_state c cm) expected
    pub others :
        (m : String) → st.find r.1.world m ≡ (if str_eq m name then some cm else st.find before m)

  pub Updates-same :
      {name : String} {a b : HostState} {before : W} {r : Result ApiError StatusCode × Session W}
      → SameState a b
      → Updates name a before r
      → Updates name b before r
  Updates-same e u = record {
    answer = u.answer;
    cm = u.cm;
    found = u.found;
    state = record {
      version = u.state.version ∙ e.version;
      client = λ v j. u.state.client v j ∙ e.client v j;
    };
    others = u.others;
  }

  -- A merge patch of the ConfigMap of a host, and the answer 200 after it.
  pub patch-Updates :
      (name : String) (p : MergePatch) (cm : ConfigMap) (expected : HostState) (s : Session W)
      → st.find s.world name ≡ some cm
      → SameState (host_state c (merge p cm)) expected
      → Updates name expected s.world
          ((map_err (kube_error c) (patch_object (cm_api k env c) name p) >> pure ok_status) s)
  unfolding ◌>>=◌ patch_object
  patch-Updates name p cm expected s h same =
      let (done, after) = st.patch_found s.world name p cm h in
      record {
        answer = ground (arith, done);
        cm = merge p cm;
        found = ground (arith, done, after name, str_eq_iff name name);
        state = same;
        others = λ n. ground (arith, done, after n);
      }

  -- Writing the clients of one version replaces these, and changes nothing else.
  pub write_clients-Updates :
      ClientsCodec c
      → (name version : String) (cm : ConfigMap) (m : Clients) (s : Session W)
      → st.find s.world name ≡ some cm
      → Updates name
          (record {
            version = version_of cm;
            client = λ v j. if str_eq v version then lookup j m else lookup j (clients_at c cm v);
          })
          s.world
          (write_clients k env c name cm version m s)
  unfolding write_clients ◌>>=◌
  write_clients-Updates law name version cm m s h =
      let (text, write, (back, read, same)) = law.round m in
      rw write (
        patch-Updates name (entries_patch (insert version text (unwrap_or cm.entries []))) cm _ s h
          (record { version = refl; client = clients_at-put c cm version text m back read same }))
