-- ===== src/Recovery/Creation.antt =====
-- `create` of src/recovery.rs on the state of its host, for a new name and for one that is taken.
use hcloud_csi_rwx.Prelude.{
  ℕ, String, true, false, ◌≡◌, refl, none, some, List, [], ◌∷◌, arith, str_eq, str_eq_iff,
  if◌then◌else◌, ◌∙◌, Bool,
}
use hcloud_csi_rwx.Map.{lookup}
use hcloud_csi_rwx.Kube.{ok, ConfigMap, Client}
use hcloud_csi_rwx.Kube.Session.{Session, ◌>>=◌, create_object, create, config_map}
use hcloud_csi_rwx.Kube.Store.{Store, merge, lookup-merge_map}
use hcloud_csi_rwx.Recovery.Types.{Env, namespace, RecoveryBackendInput, Codec, cm_name}
use hcloud_csi_rwx.Recovery.Input.{parse_input}
use hcloud_csi_rwx.Recovery.Handlers.{
  version_of, clients_at, new_config_map, version_patch, cm_api, create as create_handler,
}
use hcloud_csi_rwx.Recovery.Hosts.{ClientsCodec, HostState, host_state, Updates, patch-Updates}
use hcloud_csi_rwx.Recovery.Refinement.{version_created}

-- A host with no version and no clients.
abbrev pub no_host : HostState
no_host = record { version = ""; client = λ v j. none }

clients_at-new :
    (c : Codec) (law : ClientsCodec c) (name ns version v j : String)
    → lookup j (clients_at c (new_config_map name ns version) v) ≡ none
unfolding clients_at lookup
clients_at-new c law name ns version v j = ground (arith, law.empty_object, law.empty_text)

new_version : (name ns version : String) → version_of (new_config_map name ns version) ≡ version
unfolding lookup
new_version name ns version = ground (arith, str_eq_iff "version" "version")

same_either {ℓ} : {A : Type ℓ} (x : A) (b : Bool) → x ≡ (if b then x else x)
same_either x true = refl
same_either x false = refl

abbrev recreated : ConfigMap → String → ConfigMap
recreated cm version = merge (version_patch version ((version, "{}") ∷ [])) cm

clients_at-recreated :
    (c : Codec) (law : ClientsCodec c) (cm : ConfigMap) (version v j : String)
    → lookup j (clients_at c (recreated cm version) v)
      ≡ (if str_eq v version then none else lookup j (clients_at c cm v))
unfolding clients_at lookup
clients_at-recreated c law cm version v j =
    rw (lookup-merge_map v ((version, "{}") ∷ []) cm.entries) (ground (arith, law.empty_object))

version_of-recreated :
    (cm : ConfigMap) (version : String) → version_of (recreated cm version) ≡ version
unfolding lookup
version_of-recreated cm version =
    rw (lookup-merge_map "version" (("version", version) ∷ []) cm.annotations)
      (ground (arith, str_eq_iff "version" "version"))

module _ {W : Type 0} (k : Client W) (env : Env) (c : Codec)
    (st : Store (k.config_maps (namespace env))) (law : ClientsCodec c) (hostname : String)
    (s : Session W) (body : List ℕ) (input : RecoveryBackendInput)
    (parsed : parse_input c body ≡ ok input) (named : input.hostname ≡ some hostname) where
  abbrev sent : ConfigMap
  sent = new_config_map (cm_name hostname) (namespace env) input.version

  -- For a host with no ConfigMap on a healthy API server and a body that names it: creation answers
  -- 200 and makes the version of the body current, with no clients; no other ConfigMap changes.
  pub create-Updates_new :
      st.find s.world (cm_name hostname) ≡ none
      → Updates k env c st
          (cm_name hostname)
          (version_created input.version no_host)
          s.world
          (create_handler k env c body s)
  unfolding create_handler ◌>>=◌ create_object
  create-Updates_new h =
      let (done, after) = st.create_new s.world (cm_name hostname) sent refl h in
      rw (parsed, named, done)
        (record {
          answer = refl;
          cm = sent;
          found =
              ground
                (arith, after (cm_name hostname), str_eq_iff (cm_name hostname) (cm_name hostname));
          state = record {
            version = new_version (cm_name hostname) (namespace env) input.version;
            client = λ v j.
                clients_at-new c law (cm_name hostname) (namespace env) input.version v j
                ∙ same_either none (str_eq v input.version);
          };
          others = λ n. after n;
        })

  -- For a host whose ConfigMap exists on a healthy API server and a body that names it: creation
  -- answers 200 and makes the version of the body current, with no clients; the other versions and
  -- the other ConfigMaps stay.
  pub create-Updates_taken :
      (cm : ConfigMap)
      → st.find s.world (cm_name hostname) ≡ some cm
      → Updates k env c st
          (cm_name hostname)
          (version_created input.version (host_state c cm))
          s.world
          (create_handler k env c body s)
  unfolding create_handler ◌>>=◌ create_object
  create-Updates_taken cm h =
      rw (parsed, named, st.create_taken s.world (cm_name hostname) sent cm refl h)
        (patch-Updates k env c st (cm_name hostname)
          (version_patch input.version ((input.version, "{}") ∷ [])) cm _
          (record {
            world = s.world;
            calls = create (cm_api k env c).kind (config_map sent) ∷ s.calls;
          })
          h
          (record {
            version = version_of-recreated cm input.version;
            client = clients_at-recreated c law cm input.version;
          }))
