-- ===== src/Csi/Mounts/Served.antt =====
-- Publishing a volume against the share-manager that serves it: the node asks the API that the
-- share-manager shows its state by.
use Prim.Native.String as S
use text.Mathlib.TextLemmas.{append-eq-nil_iff, append-nil, nil-append, cons-append}
use text.Mathlib.TextEquality.{eq_iff}
use hcloud_csi_rwx.Prelude.{
  ℕ, String, ◌≡◌, refl, ap, ◌∙◌, true, false, Option, none, some, List, [], ◌∷◌, ltb, if◌then◌else◌,
  inl, inr, Bool-cases, is_empty, format,
}
use hcloud_csi_rwx.Json.{Value, null, bool, str, object}
use hcloud_csi_rwx.Kube.{Result, ok, err, Service, Client}
use hcloud_csi_rwx.Kube.Session.{Session, ◌>>=◌, get_object, get, services, http_get, create_dir}
use hcloud_csi_rwx.Provision.Config.{Env, share_namespace}
use hcloud_csi_rwx.Provision.Names.{volume_name}
use hcloud_csi_rwx.Provision.Nodes.{message}
use hcloud_csi_rwx.Csi.Types.{Codec, Host, unavailable}
use hcloud_csi_rwx.Csi.Endpoint.{HasNoColon}
use hcloud_csi_rwx.Csi.Mounts.{
  usable_ip, resolve_current_endpoint, run_command, node_publish_volume,
}
use hcloud_csi_rwx.Csi.Mounts.Publish.{node_publish-resolved, node_publish-unresolved}
use hcloud_csi_rwx.Share.Config.{nfs_endpoint}
use hcloud_csi_rwx.Share.Api.{ShareState, endpoint}
use hcloud_csi_rwx.Share.Machine.{Machine, Manager}
use hcloud_csi_rwx.Share.Manager.{Settings, Event, share_endpoint, pseudo_path, run}
use hcloud_csi_rwx.Share.Shown.{serves, run-Shows}

abbrev or_null : Option String → Value
or_null none = null
or_null (some t) = str t

-- The state as JSON, as `derive(Serialize)` writes it.
unfoldable pub state_json : ShareState → Value
state_json s = object (
    ("ready", bool s.ready)
    ∷ ("endpoint", or_null s.endpoint)
    ∷ ("volume", str s.volume)
    ∷ ("error", or_null s.error)
    ∷ [])

-- What a client that takes an error status for an error gets of an answer.
abbrev pub received : (ℕ → String) → ℕ × ShareState → Result String Value
received text (code, s) = if ltb code 400 then ok (state_json s) else err (text code)

share_endpoint_lem :
    (cfg : Settings) → share_endpoint cfg ≡ S.◌++◌ cfg.svc_ip (S.◌∷◌ ":" (pseudo_path cfg))
unfolding share_endpoint nfs_endpoint
share_endpoint_lem cfg = simp append-nil (
    ap (S.◌++◌ cfg.svc_ip)
      (cons-append ":" "" (pseudo_path cfg) ∙ ap (S.◌∷◌ ":") (nil-append (pseudo_path cfg))))

append-not_empty : (s t : String) → is_empty s ≡ false → is_empty (S.◌++◌ s t) ≡ false
append-not_empty s t h = elim (Bool-cases (is_empty (S.◌++◌ s t))) [
  | inl e ↦ cc (h, (eq_iff s "").1 (append-eq-nil_iff.0 ((eq_iff (S.◌++◌ s t) "").0 e)).0)
  | inr n ↦ n
]

pseudo_path-not_empty : (cfg : Settings) → is_empty (pseudo_path cfg) ≡ false
unfolding pseudo_path
pseudo_path-not_empty cfg = append-not_empty "/" _ refl

module _ {W : Type 0} (k : Client W) (host : Host W) (env : Env) (c : Codec) where
  abbrev pub endpoint_url : String → String
  endpoint_url ip = format ("http://" ∷ ip ∷ ":9500/endpoint" ∷ [])

  -- The session in which the endpoint of a volume was asked for.
  abbrev pub asked : String → String → W → Session W → Session W
  asked volume_id ip w s = record {
    world = (host.http_get (endpoint_url ip) w).1;
    calls =
        http_get (endpoint_url ip)
        ∷ get (services (share_namespace env)) (volume_name volume_id)
        ∷ s.calls;
  }

  resolve-ready :
      (text : ℕ → String) (volume_id ip : String) (svc : Service) (st : ShareState) (e : String)
      (s : Session W) (w : W)
      → (k.services (share_namespace env)).get (volume_name volume_id) s.world ≡ (ok svc, w)
      → usable_ip svc ≡ some ip
      → (host.http_get (endpoint_url ip) w).0 ≡ received text (endpoint st)
      → st.ready ≡ true
      → st.endpoint ≡ some e
      → is_empty e ≡ false
      → resolve_current_endpoint k host env c volume_id s ≡ (ok e, asked volume_id ip w s)
  unfolding resolve_current_endpoint get_object ◌>>=◌ endpoint state_json
  resolve-ready text volume_id ip svc st e s w found usable answer ready shown full =
      rw (found, usable, answer, ready, shown, full)

  resolve-unready :
      (text : ℕ → String) (volume_id ip : String) (svc : Service) (st : ShareState) (s : Session W)
      (w : W)
      → (k.services (share_namespace env)).get (volume_name volume_id) s.world ≡ (ok svc, w)
      → usable_ip svc ≡ some ip
      → (host.http_get (endpoint_url ip) w).0 ≡ received text (endpoint st)
      → st.ready ≡ false
      → resolve_current_endpoint k host env c volume_id s
        ≡ (err (message (text 503)), asked volume_id ip w s)
  unfolding resolve_current_endpoint get_object ◌>>=◌ endpoint
  resolve-unready text volume_id ip svc st s w found usable answer unready =
      rw (found, usable, answer, unready)

  -- A share-manager whose API was not ready before its run, and a node that asks that API through a
  -- service with a usable address, where the server of the settings is not empty, neither it nor the
  -- path has a colon, and the target can be created. Where the run still goes on or was told to end,
  -- publishing the volume is the mount of the share's path on its server; after any other end of the
  -- run it answers `unavailable`, with nothing mounted and nothing created.
  pub node_publish-served :
      {V : Type 0} (m : Machine V) (cfg : Settings) (events : List Event)
      (before : Session (Manager V)) (text : ℕ → String) (volume_id target ip : String)
      (svc : Service) (s : Session W) (w w' : W)
      → before.world.state.ready ≡ false
      → (k.services (share_namespace env)).get (volume_name volume_id) s.world ≡ (ok svc, w)
      → usable_ip svc ≡ some ip
      → (host.http_get (endpoint_url ip) w).0
        ≡ received text (endpoint (run m cfg events before).1.world.state)
      → is_empty cfg.svc_ip ≡ false
      → HasNoColon cfg.svc_ip
      → HasNoColon (pseudo_path cfg)
      → host.create_dir_all target (asked volume_id ip w s).world ≡ (ok tt, w')
      → node_publish_volume k host env c volume_id target s ≡ (
          if serves (run m cfg events before).0
          then run_command k host env c "mount"
              ("-t"
                ∷ "nfs4"
                ∷ "-o"
                ∷ "vers=4,hard,timeo=30,retrans=3"
                ∷ format (cfg.svc_ip ∷ ":" ∷ pseudo_path cfg ∷ [])
                ∷ target
                ∷ [])
              30
              (record { world = w'; calls = create_dir target ∷ (asked volume_id ip w s).calls })
          else (
            err (
                unavailable (
                  format
                    ("NFS endpoint not resolvable: " ∷ c.any_to_string (message (text 503)) ∷ []))),
            asked volume_id ip w s,
          ))
  node_publish-served m cfg events before text volume_id target ip svc s w w' fresh found usable
        answer server_there plain_server plain_path made =
      let (ready, shown) = run-Shows m cfg events before fresh in
      elim (Bool-cases (serves (run m cfg events before).0)) [
        | inl y ↦
            let e = share_endpoint_lem cfg in
            let full : is_empty (share_endpoint cfg) ≡ false =
              rw e (append-not_empty cfg.svc_ip _ server_there) in
            let resolved =
              resolve-ready text volume_id ip svc _ (share_endpoint cfg) s w found usable answer
                (ready ∙ y) (shown y) full in
            rw y (
              node_publish-resolved k host env c volume_id target cfg.svc_ip (pseudo_path cfg) s
                (asked volume_id ip w s) w' plain_server plain_path server_there
                (pseudo_path-not_empty cfg) (rw e at resolved) made)
        | inr n ↦
            rw n
              (node_publish-unresolved k host env c volume_id target (message (text 503)) s
                (asked volume_id ip w s)
                (resolve-unready text volume_id ip svc _ s w found usable answer (ready ∙ n))).0
      ]
