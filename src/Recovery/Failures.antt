-- ===== src/Recovery/Failures.antt =====
-- What the handlers of the recovery backend do when a request cannot be read or the API fails,
-- whatever the cluster is like.
use hcloud_csi_rwx.Prelude.{ℕ, String, ◌≡◌, List, ◌∷◌}
use hcloud_csi_rwx.Kube.{KubeError, ok, err, Client}
use hcloud_csi_rwx.Kube.Session.{Session, ◌>>=◌, get_object, get}
use hcloud_csi_rwx.Recovery.Types.{
  Env, namespace, ApiError, RecoveryBackendInput, Codec, cm_name, kube_error,
}
use hcloud_csi_rwx.Recovery.Input.{parse_input}
use hcloud_csi_rwx.Recovery.Handlers.{
  cm_api, create, end_grace, add_client_id, remove_client_id, add_revoke_fh, read_client_ids,
}
use hcloud_csi_rwx.Recovery.Router.{
  Route, post_backend, put_host, put_client, put_revoke_fh, get_host, delete_client, dispatch,
}

module _ {W : Type 0} (k : Client W) (env : Env) (c : Codec) where
  -- The routes that read their body.
  abbrev pub HasBody : Route → Type 0
  HasBody (get_host h) = ⊥
  HasBody (delete_client h i) = ⊥
  HasBody _ = Unit {0}

  -- On a route that reads its body, a body that cannot be read is answered by its error, and
  -- nothing is sent to the cluster.
  pub dispatch-bad_body :
      (route : Route) (body : List ℕ) (e : ApiError) (s : Session W)
      → HasBody route
      → parse_input c body ≡ err e
      → dispatch k env c route body s ≡ (err e, s)
  unfolding dispatch create end_grace add_client_id add_revoke_fh ◌>>=◌
  dispatch-bad_body post_backend body e s h p = rw p
  dispatch-bad_body (put_host n) body e s h p = rw p
  dispatch-bad_body (put_client n i) body e s h p = rw p
  dispatch-bad_body (put_revoke_fh n i f) body e s h p = rw p
  dispatch-bad_body (get_host n) body e s h p = absurd h
  dispatch-bad_body (delete_client n i) body e s h p = absurd h

  -- The host whose ConfigMap a route reads.
  abbrev pub ReadsHost : Route → String → Type 0
  ReadsHost post_backend n = ⊥
  ReadsHost (put_host h) n = h ≡ n
  ReadsHost (get_host h) n = h ≡ n
  ReadsHost (put_client h i) n = h ≡ n
  ReadsHost (delete_client h i) n = h ≡ n
  ReadsHost (put_revoke_fh h i f) n = h ≡ n

  -- On a route that reads the ConfigMap of its host, with a body that can be read: where the
  -- ConfigMap cannot be got, the answer is the status of that failure, and the read is the only
  -- request, so nothing is written.
  pub dispatch-get_failed :
      (route : Route) (body : List ℕ) (input : RecoveryBackendInput) (hostname : String)
      (e : KubeError) (s : Session W)
      → ReadsHost route hostname
      → parse_input c body ≡ ok input
      → ((k.config_maps (namespace env)).get (cm_name hostname) s.world).0 ≡ err e
      → dispatch k env c route body s ≡ (
        err (kube_error c e),
        record {
          world = ((k.config_maps (namespace env)).get (cm_name hostname) s.world).1;
          calls = get (cm_api k env c).kind (cm_name hostname) ∷ s.calls;
        },
      )
  unfolding dispatch end_grace add_client_id add_revoke_fh read_client_ids remove_client_id ◌>>=◌
      get_object
  dispatch-get_failed post_backend body input hostname e s h p g = absurd h
  dispatch-get_failed (put_host n) body input hostname e s h p g = rw (h, p, g)
  dispatch-get_failed (get_host n) body input hostname e s h p g = rw (h, g)
  dispatch-get_failed (put_client n i) body input hostname e s h p g = rw (h, p, g)
  dispatch-get_failed (delete_client n i) body input hostname e s h p g = rw (h, g)
  dispatch-get_failed (put_revoke_fh n i f) body input hostname e s h p g = rw (h, p, g)
