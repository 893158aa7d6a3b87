-- ===== src/Tests/Traces.antt =====
-- Requests of two share-managers to the recovery backend, of which one host is there from the start.
use hcloud_csi_rwx.Prelude.{
  refl, none, some, [], ◌∷◌, List, str_eq, if◌then◌else◌, Bool-cases, inl, inr,
}
use hcloud_csi_rwx.Map.{lookup}
use hcloud_csi_rwx.Recovery.Hosts.{host_state}
use hcloud_csi_rwx.Recovery.Traces.{
  Request, begin, on_host, Backend, add, forget, revoke, finish_grace, steps, perform_all,
}
use hcloud_csi_rwx.Recovery.Traces.Changes.{Agrees}
use hcloud_csi_rwx.Recovery.Traces.Agreement.{perform_all-Agrees}
use hcloud_csi_rwx.Tests.Cluster.{cluster, map_store}
use hcloud_csi_rwx.Tests.Backend.{env, codec, law, cm, session, body_v1, body_v2}

abbrev first : Backend
first m = if str_eq m "recovery-backend-nfs-1" then some (host_state codec cm) else none

abbrev requests : List Request
requests =
    on_host "nfs-1" (finish_grace body_v2)
    ∷ on_host "nfs-2" (add "c9" body_v1)
    ∷ on_host "nfs-1" (add "c2" body_v2)
    ∷ on_host "nfs-1" (add "c3" [])
    ∷ on_host "nfs-1" (revoke "c2" "fh7" body_v2)
    ∷ on_host "nfs-1" (forget "c1")
    ∷ begin body_v1
    ∷ begin (b'3' ∷ [])
    ∷ on_host "nfs-2" (add "c9" body_v1)
    ∷ []

first-Agrees : Agrees cluster env codec map_store law session.world first
unfolding lookup
first-Agrees m = elim (Bool-cases (str_eq m "recovery-backend-nfs-1")) [
  | inl e ↦ rw e (record { version = refl; client = λ v j. refl })
  | inr e ↦ rw e tt
]

perform_all-Agrees_example :
    Agrees cluster env codec map_store law
      (perform_all cluster env codec requests session).world
      (steps codec requests first)
perform_all-Agrees_example =
    perform_all-Agrees cluster env codec map_store law requests first session first-Agrees
