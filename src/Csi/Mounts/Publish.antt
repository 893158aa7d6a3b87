-- ===== src/Csi/Mounts/Publish.antt =====
-- Which commands publishing and unpublishing a volume run.
use Prim.Native.String as S
use hcloud_csi_rwx.Prelude.{
  String, Bool, true, false, ◌≡◌, refl, [], ◌∷◌, inl, inr, Bool-cases, if◌then◌else◌, is_empty,
  format,
}
use hcloud_csi_rwx.Kube.{Client, Result, ok, err, Result-cases}
use hcloud_csi_rwx.Kube.Session.{Session, Call, run, ◌>>=◌, create_dir}
use hcloud_csi_rwx.Kube.Avoids.{count, Avoids, avoids_rules}
use hcloud_csi_rwx.Provision.Config.{Env}
use hcloud_csi_rwx.Provision.Nodes.{AnyError}
use hcloud_csi_rwx.Csi.Types.{Codec, Host, Status, unavailable, invalid_argument}
use hcloud_csi_rwx.Csi.Endpoint.{HasNoColon, split_endpoint, split_colon-append}
use hcloud_csi_rwx.Csi.Mounts.{
  node_publish_volume, node_unpublish_volume, run_command, resolve_current_endpoint,
}

abbrev pub is_run : Call → Bool
is_run (run program args timeout) = true
is_run _ = false

module _ {W : Type 0} (k : Client W) (host : Host W) (env : Env) (c : Codec) where
  abbrev pub first_try : String → Session W → Result Status (Unit {0}) × Session W
  first_try target s = run_command k host env c "umount" (target ∷ []) 20 s

  -- Unpublishing succeeds in any case: it runs `umount`, and a second time, lazily, exactly where the
  -- first one failed, with nothing else.
  pub node_unpublish-exact :
      (target : String) (s : Session W)
      → ((node_unpublish_volume k host env c target s).0 ≡ ok tt)
        × ((node_unpublish_volume k host env c target s).1.calls ≡ elim (first_try target s).0 [
          | ok _ ↦ run "umount" (target ∷ []) 20 ∷ s.calls
          | err _ ↦ run "umount" ("-l" ∷ target ∷ []) 10 ∷ run "umount" (target ∷ []) 20 ∷ s.calls
        ])
  unfolding node_unpublish_volume ◌>>=◌ run_command
  node_unpublish-exact target s = elim (Result-cases (first_try target s).0) [
    | inl (e, h) ↦ (rw h refl, rw h refl)
    | inr (a, h) ↦ (rw h refl, rw h refl)
  ]

  resolve-runs_none :
      (volume_id : String) → Avoids is_run (resolve_current_endpoint k host env c volume_id)
  unfolding resolve_current_endpoint ◌>>=◌
  resolve-runs_none volume_id = search avoids_rules depth 8

  -- Where the current endpoint of a volume cannot be resolved, publishing it answers `unavailable`, and
  -- it has run no command.
  pub node_publish-unresolved :
      (volume_id target : String) (e : AnyError) (s s₁ : Session W)
      → resolve_current_endpoint k host env c volume_id s ≡ (err e, s₁)
      → ((node_publish_volume k host env c volume_id target s) ≡ (
        err (unavailable (format ("NFS endpoint not resolvable: " ∷ c.any_to_string e ∷ []))),
        s₁,
      ))
        × (count is_run s₁.calls ≡ count is_run s.calls)
  unfolding node_publish_volume ◌>>=◌
  node_publish-unresolved volume_id target e s s₁ h =
      let none_run = (resolve-runs_none volume_id).at s in (rw h refl, cc (h, none_run))

  -- Where the endpoint is a server and a path, neither of them empty or with a colon, and the target
  -- directory could be created, publishing the volume is the mount of that path of that server on the
  -- target, with the options of the program and a timeout of 30 seconds.
  pub node_publish-resolved :
      (volume_id target server path : String) (s s₁ : Session W) (w : W)
      → HasNoColon server
      → HasNoColon path
      → is_empty server ≡ false
      → is_empty path ≡ false
      → resolve_current_endpoint k host env c volume_id s
        ≡ (ok (S.◌++◌ server (S.◌∷◌ ":" path)), s₁)
      → host.create_dir_all target s₁.world ≡ (ok tt, w)
      → node_publish_volume k host env c volume_id target s
        ≡ run_command k host env c "mount"
            ("-t"
              ∷ "nfs4"
              ∷ "-o"
              ∷ "vers=4,hard,timeo=30,retrans=3"
              ∷ format (server ∷ ":" ∷ path ∷ [])
              ∷ target
              ∷ [])
            30
            (record { world = w; calls = create_dir target ∷ s₁.calls })
  unfolding node_publish_volume ◌>>=◌ run_command
  node_publish-resolved volume_id target server path s s₁ w hs hp es ep resolved made =
      let parts = split_endpoint server path hs hp in rw (resolved, made, parts.0, parts.1, es, ep)

  -- An endpoint of three parts or more, such as that of an IPv6 address: publishing never gets to the
  -- path. Where the target directory could be created, it mounts the second part of the first one, and
  -- it refuses the endpoint as malformed where the second part is empty.
  pub node_publish-colons :
      (volume_id target first second rest : String) (s s₁ : Session W) (w : W)
      → HasNoColon first
      → HasNoColon second
      → is_empty first ≡ false
      → resolve_current_endpoint k host env c volume_id s
        ≡ (ok (S.◌++◌ first (S.◌∷◌ ":" (S.◌++◌ second (S.◌∷◌ ":" rest)))), s₁)
      → host.create_dir_all target s₁.world ≡ (ok tt, w)
      → node_publish_volume k host env c volume_id target s ≡ (
          if is_empty second
          then (
            err (
                invalid_argument (
                  format (
                    "malformed NFS endpoint "
                    ∷ S.◌++◌ first (S.◌∷◌ ":" (S.◌++◌ second (S.◌∷◌ ":" rest)))
                    ∷ []))),
            record { world = w; calls = create_dir target ∷ s₁.calls },
          )
          else run_command k host env c "mount"
              ("-t"
                ∷ "nfs4"
                ∷ "-o"
                ∷ "vers=4,hard,timeo=30,retrans=3"
                ∷ format (first ∷ ":" ∷ second ∷ [])
                ∷ target
                ∷ [])
              30
              (record { world = w; calls = create_dir target ∷ s₁.calls }))
  unfolding node_publish_volume ◌>>=◌ run_command
  node_publish-colons volume_id target first second rest s s₁ w hf hs ef resolved made =
      let split = split_colon-append first (S.◌++◌ second (S.◌∷◌ ":" rest)) hf in
      elim (Bool-cases (is_empty second)) [
        | inl y ↦ rw (resolved, made, split, split_colon-append second rest hs, ef, y)
        | inr n ↦ rw (resolved, made, split, split_colon-append second rest hs, ef, n)
      ]
