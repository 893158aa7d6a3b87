-- ===== src/Tests/Procedures.antt =====
-- The procedures of the driver on a volume that is there.
use hcloud_csi_rwx.Prelude.{◌≡◌, refl, none, some, [], ◌∷◌, onto, false, str_eq, if◌then◌else◌}
use hcloud_csi_rwx.Kube.{Pod, PersistentVolumeClaim, ok}
use hcloud_csi_rwx.Kube.Session.{pure, Session, get, pods, claims, services}
use hcloud_csi_rwx.Provision.Config.{Env, share_namespace}
use hcloud_csi_rwx.Provision.Names.{volume_name, backing_pvc_name, share_pod_name}
use hcloud_csi_rwx.Csi.Types.{CreateVolumeRequest}
use hcloud_csi_rwx.Csi.Volumes.{response, create_volume}
use hcloud_csi_rwx.Csi.Service.{
  NodeProcedure, Procedure, serve, strip_prefix, listener, unix_socket,
}
use hcloud_csi_rwx.Csi.Service.Implemented.{answers_refusal}
use hcloud_csi_rwx.Csi.Service.Answers.{serve-offered}
use hcloud_csi_rwx.Csi.Volumes.Existing.{create_volume-existing}
use hcloud_csi_rwx.Map.{lookup}
use hcloud_csi_rwx.Tests.Cluster.{Cluster, cluster}
use hcloud_csi_rwx.Tests.Volumes.{env, codec, host, share, session}

serve-offered_example :
    answers_refusal
      (serve cluster host env codec 15 2
        (Procedure.node_call NodeProcedure.node_stage_volume)
        session).0
    ≡ false
unfolding serve pure
serve-offered_example =
    serve-offered cluster host env codec 15 2 (Procedure.node_call NodeProcedure.node_stage_volume)
      session

abbrev socket_env : Env
socket_env name = if str_eq name "CSI_ENDPOINT" then some "unix:///run/csi.sock" else none

default_socket : listener env ≡ unix_socket "/csi/csi.sock"
unfolding listener strip_prefix
default_socket = refl

abbrev pub running_pod : Pod
running_pod = record {
  name = some "share-manager-pvc-1";
  labels = none;
  spec = none;
  status = some (record { phase = some "Running"; pod_ip = some "10.0.0.9" });
}

abbrev backing_claim : PersistentVolumeClaim
backing_claim = record {
  name = some "pvc-1-backing";
  namespace = none;
  deletion_timestamp = none;
  spec = none;
}

abbrev provisioned : Session Cluster
provisioned = record {
  world = record session.world {
    claims = (backing_pvc_name "pvc-1", backing_claim) ∷ [];
    pods = (share_pod_name "pvc-1", running_pod) ∷ [];
  };
  calls = [];
}

abbrev again : CreateVolumeRequest
again = record { name = "pvc-1"; required_bytes = none; parameters = [] }

claim_there :
    (cluster.claims (share_namespace env)).get
      (backing_pvc_name (volume_name "pvc-1"))
      provisioned.world
    ≡ (ok backing_claim, provisioned.world)
unfolding lookup backing_pvc_name volume_name
claim_there = refl

service_there :
    (cluster.services (share_namespace env)).get (volume_name "pvc-1") provisioned.world
    ≡ (ok share, provisioned.world)
unfolding lookup volume_name
service_there = refl

pod_there :
    (cluster.pods (share_namespace env)).get
      (share_pod_name (volume_name "pvc-1"))
      provisioned.world
    ≡ (ok running_pod, provisioned.world)
unfolding lookup share_pod_name volume_name
pod_there = refl

create_volume-existing_example : create_volume cluster env codec 15 2 again provisioned ≡ (
  ok (response again "10.0.0.9"),
  record provisioned {
    calls =
        onto
          (get (claims (share_namespace env)) (backing_pvc_name (volume_name "pvc-1"))
            ∷ get (services (share_namespace env)) (volume_name "pvc-1")
            ∷ get (pods (share_namespace env)) (share_pod_name (volume_name "pvc-1"))
            ∷ get (pods (share_namespace env)) (share_pod_name (volume_name "pvc-1"))
            ∷ get (pods (share_namespace env)) (share_pod_name (volume_name "pvc-1"))
            ∷ [])
          [];
  },
)
create_volume-existing_example =
    create_volume-existing cluster env codec 14 2 again backing_claim share running_pod provisioned
      claim_there service_there pod_there refl
