-- ===== src/Recovery/Traces/Agreement.antt =====
-- The ConfigMaps of the hosts agree with their states along any sequence of requests.
use hcloud_csi_rwx.Prelude.{
  ℕ, String, refl, Option, List, [], ◌∷◌, str_eq, inl, inr, none, ◌≡◌, some, Bool-cases, str_eq_iff,
  Option-cases, unwrap_or, ap,
}
use hcloud_csi_rwx.Kube.{Result, Result-cases, Client, ConfigMap}
use hcloud_csi_rwx.Recovery.Types.{ApiError, Codec, cm_name, namespace, StatusCode}
use hcloud_csi_rwx.Recovery.Input.{parse_input}
use hcloud_csi_rwx.Recovery.Hosts.{HostState, SameState, ClientsCodec, host_state, Updates}
use hcloud_csi_rwx.Recovery.Refinement.{version_created}
use hcloud_csi_rwx.Recovery.Creation.{no_host, create-Updates_new, create-Updates_taken}
use hcloud_csi_rwx.Provision.Config.{Env}
use hcloud_csi_rwx.Kube.Store.{Store}
use hcloud_csi_rwx.Kube.Session.{Session, ◌>>=◌}
use hcloud_csi_rwx.Recovery.Handlers.{create}
use hcloud_csi_rwx.Recovery.Traces.{
  Request, begin, on_host, Backend, host_created, begun, step, steps, perform, perform_all,
}
use hcloud_csi_rwx.Recovery.Traces.Congruence.{version_created-same, SameState-trans}
use hcloud_csi_rwx.Recovery.Traces.Changes.{Match, Agrees, perform_change-Agrees}

module _ {W : Type 0} (k : Client W) (env : Env) (c : Codec)
    (st : Store (k.config_maps (namespace env))) (law : ClientsCodec c) where
  begun_none :
      (o : Option HostState) → Match k env c st law none o → SameState no_host (unwrap_or o no_host)
  begun_none none m = record { version = refl; client = λ v j. refl }
  begun_none (some h) m = elim m [ ]

  begun_some :
      (cm : ConfigMap) (o : Option HostState)
      → Match k env c st law (some cm) o
      → SameState (host_state c cm) (unwrap_or o no_host)
  begun_some cm none m = elim m [ ]
  begun_some cm (some h) m = m

  -- A host that a request created, or made anew from the state `h`.
  began :
      (b : Backend) (hostname version : String) (h : HostState) (before : W)
      (r : Result ApiError StatusCode × Session W)
      → SameState h (unwrap_or (b (cm_name hostname)) no_host)
      → Updates k env c st (cm_name hostname) (version_created version h) before r
      → Agrees k env c st law before b
      → Agrees k env c st law r.1.world (host_created (some hostname) version b)
  began b hostname version h before r same u agree m =
      elim (Bool-cases (str_eq m (cm_name hostname))) [
        | inl e ↦
            let at_name : b m ≡ b (cm_name hostname) =
              ap b ((str_eq_iff m (cm_name hostname)).0 e) in
            rw (u.others m, e, at_name)
              (SameState-trans (host_state c u.cm) (version_created version h)
                (version_created version (unwrap_or (b (cm_name hostname)) no_host)) u.state
                (version_created-same version h (unwrap_or (b (cm_name hostname)) no_host) same))
        | inr e ↦ rw (u.others m, e) (agree m)
      ]

  create-Agrees :
      (body : List ℕ) (b : Backend) (s : Session W)
      → Agrees k env c st law s.world b
      → Agrees k env c st law (create k env c body s).1.world (step c (begin body) b)
  unfolding create ◌>>=◌
  create-Agrees body b s agree = elim (Result-cases (parse_input c body)) [
    | inl (e, p) ↦ rw p agree
    | inr (i, p) ↦ elim (Option-cases i.hostname) [
      | inl n ↦ rw (p, n) agree
      | inr (h, n) ↦ elim (Option-cases (st.find s.world (cm_name h))) [
        | inl gone ↦
            rw (ap (λ x. begun x b) p, n)
              (began b h i.version no_host s.world (create k env c body s)
                (begun_none (b (cm_name h)) (rw gone at (agree (cm_name h))))
                (create-Updates_new k env c st law h s body i p n gone) agree)
        | inr (cm, there) ↦
            rw (ap (λ x. begun x b) p, n)
              (began b h i.version (host_state c cm) s.world (create k env c body s)
                (begun_some cm (b (cm_name h)) (rw there at (agree (cm_name h))))
                (create-Updates_taken k env c st law h s body i p n cm there) agree)
      ]
    ]
  ]

  perform-Agrees :
      (r : Request) (b : Backend) (s : Session W)
      → Agrees k env c st law s.world b
      → Agrees k env c st law (perform k env c r s).1.world (step c r b)
  unfolding perform
  perform-Agrees (begin body) b s agree = create-Agrees body b s agree
  perform-Agrees (on_host hostname x) b s agree =
      perform_change-Agrees k env c st law hostname x b s agree

  -- With a codec that reads back what it writes and a healthy API server: where the ConfigMaps agree
  -- with the states of the hosts, they agree after any sequence of requests, creations among them,
  -- from any hosts in any order and with any bodies, with the states that the same requests make of
  -- these. Creation makes the version of its body the current one, with no clients, whether the host
  -- that the body names was there or not; a change of a host that is not there, or a request whose
  -- body cannot be read or names no host where it has to, changes nothing.
  pub perform_all-Agrees :
      (requests : List Request) (b : Backend) (s : Session W)
      → Agrees k env c st law s.world b
      → Agrees k env c st law (perform_all k env c requests s).world (steps c requests b)
  unfolding perform_all
  perform_all-Agrees [] b s agree = agree
  perform_all-Agrees (r ∷ rs) b s agree =
      perform_all-Agrees rs (step c r b) (perform k env c r s).1 (perform-Agrees r b s agree)
