-- ===== src/Recovery/Traces/Congruence.antt =====
-- The changes of a host respect equal states.
use hcloud_csi_rwx.Prelude.{String, refl, ◌∙◌, inl, inr}
use hcloud_csi_rwx.Kube.{Result-cases}
use hcloud_csi_rwx.Recovery.Types.{Codec}
use hcloud_csi_rwx.Recovery.Input.{parse_input}
use hcloud_csi_rwx.Recovery.Hosts.{HostState, SameState}
use hcloud_csi_rwx.Recovery.Refinement.{
  version_created, client_added, client_removed, handle_revoked, grace_ended,
}
use hcloud_csi_rwx.Recovery.Traces.{Change, add, forget, revoke, finish_grace, changed}

pub client_added-same :
    (version client_id : String) (a b : HostState)
    → SameState a b
    → SameState (client_added version client_id a) (client_added version client_id b)
client_added-same version client_id a b e = record {
  version = e.version;
  client = λ v j. rw (e.client version client_id, e.client v j) refl;
}

pub handle_revoked-same :
    (version client_id fh : String) (a b : HostState)
    → SameState a b
    → SameState (handle_revoked version client_id fh a) (handle_revoked version client_id fh b)
handle_revoked-same version client_id fh a b e = record {
  version = e.version;
  client = λ v j. rw (e.client version client_id, e.client v j) refl;
}

pub client_removed-same :
    (client_id : String) (a b : HostState)
    → SameState a b
    → SameState (client_removed client_id a) (client_removed client_id b)
client_removed-same client_id a b e = record {
  version = e.version;
  client = λ v j. rw (e.version, e.client v j) refl;
}

pub grace_ended-same :
    (version : String) (a b : HostState)
    → SameState a b
    → SameState (grace_ended version a) (grace_ended version b)
grace_ended-same version a b e = record {
  version = refl;
  client = λ v j. rw (e.version, e.client v j) refl;
}

pub version_created-same :
    (version : String) (a b : HostState)
    → SameState a b
    → SameState (version_created version a) (version_created version b)
version_created-same version a b e = record {
  version = refl;
  client = λ v j. rw (e.client v j) refl;
}

pub changed-same :
    (c : Codec) (x : Change) (a b : HostState)
    → SameState a b
    → SameState (changed c x a) (changed c x b)
changed-same c (forget client_id) a b e = client_removed-same client_id a b e
changed-same c (add client_id body) a b e = elim (Result-cases (parse_input c body)) [
  | inl (_, p) ↦ rw p e
  | inr (input, p) ↦ rw p (client_added-same input.version client_id a b e)
]
changed-same c (revoke client_id fh body) a b e = elim (Result-cases (parse_input c body)) [
  | inl (_, p) ↦ rw p e
  | inr (input, p) ↦ rw p (handle_revoked-same input.version client_id fh a b e)
]
changed-same c (finish_grace body) a b e = elim (Result-cases (parse_input c body)) [
  | inl (_, p) ↦ rw p e
  | inr (input, p) ↦ rw p (grace_ended-same input.version a b e)
]

pub SameState-trans : (x y z : HostState) → SameState x y → SameState y z → SameState x z
SameState-trans x y z e f = record {
  version = e.version ∙ f.version;
  client = λ v j. e.client v j ∙ f.client v j;
}
