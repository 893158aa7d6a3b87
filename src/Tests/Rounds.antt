-- ===== src/Tests/Rounds.antt =====
-- Rounds of the controller on the cluster of Tests.Shares.
use hcloud_csi_rwx.Kube.{ConfigMap}
use hcloud_csi_rwx.Controller.State.{load_or_create_state}
use hcloud_csi_rwx.Controller.Reconcile.Requests.{Quiets}
use hcloud_csi_rwx.Controller.Reconcile.Marked.{deletes_pod, eviction_not_retried}
use hcloud_csi_rwx.Tests.Cluster.{map_store, others}
use hcloud_csi_rwx.Tests.Shares.{law, state_map, stored}
use hcloud_csi_rwx.Prelude.{String, ◌≡◌, refl, some}
use hcloud_csi_rwx.Kube.{Client, other, api, ok, err}
use hcloud_csi_rwx.Kube.Session.{◌>>=◌, list_objects}
use hcloud_csi_rwx.Kube.Avoids.{count}
use hcloud_csi_rwx.Provision.Nodes.{kube}
use hcloud_csi_rwx.Controller.State.{kube_err, save_state}
use hcloud_csi_rwx.Controller.Evict.{evict_workload_pods}
use hcloud_csi_rwx.Controller.Reconcile.{on_answer, on_missing, recreate}
use hcloud_csi_rwx.Controller.Reconcile.Pods.{creates_pod, on_answer-creates_none}
use hcloud_csi_rwx.Controller.Reconcile.Rounds.{SavedFirst, recreate_saves_first}
use hcloud_csi_rwx.Tests.Cluster.{Cluster, cluster}
use hcloud_csi_rwx.Tests.Shares.{env, codec, st, marked, session}

-- An API server that refuses to list pods.
abbrev no_pods : Client Cluster
no_pods = record cluster {
  pods = λ ns. record (cluster.pods ns) { list = λ selector w. (err (other "timeout"), w) };
}

on_answer-creates_none_example :
    count creates_pod
      (on_answer cluster env codec "pvc-1" "data" "default" st
        (err (api 500 "etcd is gone"))
        session).1.calls
    ≡ count creates_pod session.calls
on_answer-creates_none_example =
    on_answer-creates_none cluster env codec "pvc-1" "data" "default" st
      (err (api 500 "etcd is gone")) session refl

refused_others : (n : String) (cm : ConfigMap) → Quiets no_pods (λ w. map_store.find w n ≡ some cm)
refused_others n cm =
    let q = others n cm in
    record {
      pods = λ ns. record {
        get = (q.pods ns).get;
        list = λ l w h. h;
        create = (q.pods ns).create;
        delete = (q.pods ns).delete;
      };
      claims = q.claims;
      services = q.services;
      nodes = q.nodes;
      attachments = q.attachments;
    }

refusing :
    (evict_workload_pods no_pods "data" "default" (save_state no_pods env codec marked session).1).0
    ≡ err (kube (other "timeout"))
unfolding evict_workload_pods ◌>>=◌ list_objects
refusing = refl

eviction_not_retried_example :
    ((on_missing no_pods env codec "pvc-1" "data" "default" st session).0
      ≡ err (kube_err codec (kube (other "timeout"))))
    × ((load_or_create_state no_pods env codec "pvc-1"
          (on_missing no_pods env codec "pvc-1" "data" "default" st session).1).0
        ≡ ok marked)
    × (count deletes_pod
          (on_missing no_pods env codec "pvc-1" "data" "default" marked session).1.calls
        ≡ count deletes_pod session.calls)
eviction_not_retried_example =
    eviction_not_retried no_pods env codec "pvc-1" "data" "default" law map_store refused_others st
      state_map (kube (other "timeout")) session session refl stored refusing

recreate_saves_first_example :
    SavedFirst cluster env codec "pvc-1" "data" "default" marked session
      (recreate cluster env codec "pvc-1" "data" "default" marked session)
recreate_saves_first_example =
    recreate_saves_first cluster env codec "pvc-1" "data" "default" marked session
