-- ===== src/Recovery/Traces/Changes.antt =====
-- The ConfigMaps of the hosts and their states, and each change of one host.
use hcloud_csi_rwx.Prelude.{
  ℕ, String, refl, Option, List, str_eq, option_map, if◌then◌else◌, inl, inr, none, ◌≡◌, some,
  Bool-cases, str_eq_iff, Option-cases,
}
use hcloud_csi_rwx.Kube.{Result, ok, err, Result-cases, Client, ConfigMap}
use hcloud_csi_rwx.Recovery.Types.{
  RecoveryBackendInput, ApiError, Codec, cm_name, namespace, StatusCode,
}
use hcloud_csi_rwx.Recovery.Input.{parse_input}
use hcloud_csi_rwx.Recovery.Hosts.{HostState, SameState, ClientsCodec, host_state, Updates}
use hcloud_csi_rwx.Recovery.Refinement.{
  client_added, client_removed, handle_revoked, grace_ended, remove_client_id-Updates,
  add_client_id-Updates, add_revoke_fh-Updates, end_grace-Updates,
}
use hcloud_csi_rwx.Provision.Config.{Env}
use hcloud_csi_rwx.Kube.Store.{Store}
use hcloud_csi_rwx.Kube.Session.{Session, ◌>>=◌, get_object}
use hcloud_csi_rwx.Recovery.Handlers.{add_client_id, remove_client_id, add_revoke_fh, end_grace}
use hcloud_csi_rwx.Recovery.Traces.{
  Change, add, forget, revoke, finish_grace, on_host, Backend, if_read, step, perform_change,
}
use hcloud_csi_rwx.Recovery.Traces.Congruence.{client_removed-same, changed-same, SameState-trans}

module _ {W : Type 0} (k : Client W) (env : Env) (c : Codec)
    (st : Store (k.config_maps (namespace env))) (law : ClientsCodec c) where
  -- A ConfigMap and the state of its host: both there and the same, or neither.
  abbrev pub Match : Option ConfigMap → Option HostState → Type 0
  Match none none = Unit {0}
  Match none (some h) = ⊥
  Match (some cm) none = ⊥
  Match (some cm) (some h) = SameState (host_state c cm) h

  abbrev pub Agrees : W → Backend → Type 0
  Agrees w b = (m : String) → Match (st.find w m) (b m)

  matched-after :
      (f : HostState → HostState) (cm cm' : ConfigMap) (o : Option HostState)
      → ((a b : HostState) → SameState a b → SameState (f a) (f b))
      → SameState (host_state c cm') (f (host_state c cm))
      → Match (some cm) o
      → Match (some cm') (option_map f o)
  matched-after f cm cm' none same u m = m
  matched-after f cm cm' (some h) same u m =
      SameState-trans (host_state c cm') (f (host_state c cm)) (f h) u (same (host_state c cm) h m)

  matched-none :
      (f : HostState → HostState) (o : Option HostState)
      → Match none o
      → Match none (option_map f o)
  matched-none f none m = m
  matched-none f (some h) m = m

  -- A change of one host that a handler made.
  updated :
      (b : Backend) (name : String) (f : HostState → HostState) (cm : ConfigMap) (before : W)
      (r : Result ApiError StatusCode × Session W)
      → ((x y : HostState) → SameState x y → SameState (f x) (f y))
      → st.find before name ≡ some cm
      → Updates k env c st name (f (host_state c cm)) before r
      → Agrees before b
      → Agrees r.1.world (λ m. if str_eq m name then option_map f (b m) else b m)
  updated b name f cm before r same found u agree m = elim (Bool-cases (str_eq m name)) [
    | inl e ↦
        let there : st.find before m ≡ some cm = rw ((str_eq_iff m name).0 e) found in
        rw (u.others m, e) (matched-after f cm u.cm (b m) same u.state (rw there at (agree m)))
    | inr e ↦ rw (u.others m, e) (agree m)
  ]

  -- A host that is not there.
  untouched :
      (b : Backend) (name : String) (f : HostState → HostState) (w : W)
      → st.find w name ≡ none
      → Agrees w b
      → Agrees w (λ m. if str_eq m name then option_map f (b m) else b m)
  untouched b name f w gone agree m = elim (Bool-cases (str_eq m name)) [
    | inl e ↦
        let missing : st.find w m ≡ none = rw ((str_eq_iff m name).0 e) gone in
        rw (missing, e) (matched-none f (b m) (rw missing at (agree m)))
    | inr e ↦ rw e (agree m)
  ]

  matched-same :
      (o : Option ConfigMap) (h : Option HostState) → Match o h → Match o (option_map (λ x. x) h)
  matched-same none none m = m
  matched-same none (some x) m = m
  matched-same (some cm) none m = m
  matched-same (some cm) (some x) m = m

  -- A request whose body cannot be read.
  unread :
      (b : Backend) (name : String) (w : W)
      → Agrees w b
      → Agrees w (λ m. if str_eq m name then option_map (λ x. x) (b m) else b m)
  unread b name w agree m = elim (Bool-cases (str_eq m name)) [
    | inl e ↦ rw e (matched-same (st.find w m) (b m) (agree m))
    | inr e ↦ rw e (agree m)
  ]

  -- A request that reads its body: where the body or the host is not there, nothing is changed, and
  -- otherwise the host is changed as the body says.
  body_cases :
      (name : String) (body : List ℕ) (f : RecoveryBackendInput → HostState → HostState)
      (b : Backend) (before : W) (r : Result ApiError StatusCode × Session W)
      → ((x y : HostState)
          → SameState x y
          → SameState (if_read (parse_input c body) f x) (if_read (parse_input c body) f y))
      → ((e : ApiError) → parse_input c body ≡ err e → r.1.world ≡ before)
      → ((i : RecoveryBackendInput)
          → parse_input c body ≡ ok i
          → st.find before name ≡ none
          → r.1.world ≡ before)
      → ((i : RecoveryBackendInput) (cm : ConfigMap)
          → parse_input c body ≡ ok i
          → st.find before name ≡ some cm
          → Updates k env c st name (f i (host_state c cm)) before r)
      → Agrees before b
      → Agrees r.1.world
          (λ m. if str_eq m name then option_map (if_read (parse_input c body) f) (b m) else b m)
  body_cases name body f b before r same bad gone made agree =
      elim (Result-cases (parse_input c body)) [
        | inl (e, p) ↦ rw (bad e p, p) (unread b name before agree)
        | inr (i, p) ↦ elim (Option-cases (st.find before name)) [
          | inl none_there ↦
              rw (gone i p none_there, p) (untouched b name (f i) before none_there agree)
          | inr (cm, there) ↦
              rw p (updated b name (f i) cm before r (rw p at same) there (made i cm p there) agree)
        ]
      ]

  pub perform_change-Agrees :
      (hostname : String) (x : Change) (b : Backend) (s : Session W)
      → Agrees s.world b
      → Agrees (perform_change k env c hostname x s).1.world (step c (on_host hostname x) b)
  unfolding perform_change remove_client_id add_client_id add_revoke_fh end_grace ◌>>=◌ get_object
  perform_change-Agrees hostname (forget client_id) b s agree =
      elim (Option-cases (st.find s.world (cm_name hostname))) [
        | inl e ↦
            rw (st.get_gone s.world (cm_name hostname) e)
              (untouched b (cm_name hostname) (client_removed client_id) s.world e agree)
        | inr (cm, e) ↦
            updated b (cm_name hostname) (client_removed client_id) cm s.world
              (remove_client_id k env c hostname client_id s) (client_removed-same client_id) e
              (remove_client_id-Updates k env c st law hostname cm s e client_id) agree
      ]
  perform_change-Agrees hostname (add client_id body) b s agree =
      body_cases (cm_name hostname) body (λ i. client_added i.version client_id) b s.world
        (add_client_id k env c hostname client_id body s) (changed-same c (add client_id body))
        (λ e p. rw p refl) (λ i p e. rw (p, st.get_gone s.world (cm_name hostname) e) refl)
        (λ i cm p e. add_client_id-Updates k env c st law hostname cm s e body i p client_id) agree
  perform_change-Agrees hostname (revoke client_id fh body) b s agree =
      body_cases (cm_name hostname) body (λ i. handle_revoked i.version client_id fh) b s.world
        (add_revoke_fh k env c hostname client_id fh body s)
        (changed-same c (revoke client_id fh body)) (λ e p. rw p refl)
        (λ i p e. rw (p, st.get_gone s.world (cm_name hostname) e) refl)
        (λ i cm p e. add_revoke_fh-Updates k env c st law hostname cm s e body i p client_id fh)
        agree
  perform_change-Agrees hostname (finish_grace body) b s agree =
      body_cases (cm_name hostname) body (λ i. grace_ended i.version) b s.world
        (end_grace k env c hostname body s) (changed-same c (finish_grace body)) (λ e p. rw p refl)
        (λ i p e. rw (p, st.get_gone s.world (cm_name hostname) e) refl)
        (λ i cm p e. end_grace-Updates k env c st law hostname cm s e body i p) agree
