-- ===== src/Tests/Starting.antt =====
-- A volume whose pod comes to run while CreateVolume sleeps.
use hcloud_csi_rwx.Prelude.{ap, unwrap_or, str_eq, ◌≡◌, refl, [], ◌∷◌, arith}
use hcloud_csi_rwx.Map.{lookup}
use hcloud_csi_rwx.Kube.{Client, ok}
use hcloud_csi_rwx.Kube.Session.{Session, get, pods, ◌>>=◌, get_object}
use hcloud_csi_rwx.Provision.Config.{share_namespace}
use hcloud_csi_rwx.Provision.Names.{volume_name, backing_pvc_name, share_pod_name}
use hcloud_csi_rwx.Csi.Volumes.{response, create_volume, provision_objects}
use hcloud_csi_rwx.Csi.Volumes.Waiting.{polls, look, after_looks, RestsFor}
use hcloud_csi_rwx.Csi.Volumes.Started.{create_volume-started}
use hcloud_csi_rwx.Tests.Cluster.{Cluster, cluster}
use hcloud_csi_rwx.Tests.Volumes.{env, codec, request, stuck}
use hcloud_csi_rwx.Tests.Procedures.{running_pod}

-- After a sleep the pod runs.
abbrev waking : Client Cluster
waking = record cluster {
  sleep = λ secs w. record w { pods = ("share-manager-pvc-1", running_pod) ∷ [] };
}

abbrev objects : Session Cluster
objects = (provision_objects waking env codec 15 2 request stuck).1

objects_there : provision_objects waking env codec 15 2 request stuck ≡ (ok tt, objects)
unfolding provision_objects ◌>>=◌ get_object lookup volume_name share_pod_name backing_pvc_name
objects_there = refl

rests : RestsFor waking env codec 15 2 (share_pod_name (volume_name "pvc-1")) 1 objects.world
unfolding provision_objects ◌>>=◌ get_object lookup volume_name share_pod_name backing_pvc_name
rests = (λ e. cc (ap (λ o. str_eq (unwrap_or o "") "Running") e), tt)

wakes :
    (look waking env codec 15 2
      (share_pod_name (volume_name "pvc-1"))
      (after_looks waking env codec 15 2 (share_pod_name (volume_name "pvc-1")) 1 objects.world)).0
    ≡ ok running_pod
unfolding provision_objects ◌>>=◌ get_object lookup volume_name share_pod_name backing_pvc_name
wakes = refl

create_volume-started_example : create_volume waking env codec 15 2 request stuck ≡ (
  ok (response request "10.0.0.9"),
  record {
    world =
        (look waking env codec 15 2 (share_pod_name (volume_name "pvc-1")) (
          after_looks waking env codec 15 2
            (share_pod_name (volume_name "pvc-1"))
            1
            objects.world)).1;
    calls =
        get (pods (share_namespace env)) (share_pod_name (volume_name "pvc-1"))
        ∷ polls (share_namespace env) (share_pod_name (volume_name "pvc-1")) 2 1 objects.calls;
  },
)
create_volume-started_example =
    create_volume-started waking env codec 15 2 request 1 running_pod stuck objects objects_there
      (omega arith) rests wakes refl
