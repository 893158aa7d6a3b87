-- ===== src/Tests/Sharing.antt =====
-- Rounds of the controller in sequence on a cluster in memory: the claim `data` of the volume `pvc-1`.
use hcloud_csi_rwx.Prelude.{refl, none, some, [], ◌∷◌, ◌≡◌}
use hcloud_csi_rwx.Kube.{PersistentVolumeClaim}
use hcloud_csi_rwx.Controller.Reconcile.Stored.{AllShares}
use hcloud_csi_rwx.Controller.Reconcile.Stored.Reachable.{
  Reach, Reach-AllShares, round, here, ◌then◌,
}
use hcloud_csi_rwx.Controller.Reconcile.{
  start_failover, reconcile_body, reconcile_bound, mark_missing, on_missing, recreate, retire_node,
  is_rwx_pvc, pod_node_ready, on_pod,
}
use hcloud_csi_rwx.Tests.Cluster.{Cluster, cluster, empty_cluster, map_server}
use hcloud_csi_rwx.Tests.Shares.{env, codec, law, node_of}
use hcloud_csi_rwx.Controller.Reconcile.Moves.{left, MadeElsewhere, failover-moves}
use hcloud_csi_rwx.Kube.{ok}
use hcloud_csi_rwx.Tests.Cluster.{map_store, others}
use hcloud_csi_rwx.Tests.Shares.{st, session, state_map, stored}
use hcloud_csi_rwx.Map.{lookup, insert, extend}
use hcloud_csi_rwx.Controller.State.{
  state_data, load_or_create_state, ensure_service, save_state, pick_node_with_reset, picked,
  kube_err, state_cm, state_of,
}
use hcloud_csi_rwx.Controller.Detach.{
  force_detach_backing_pvc, backing_pv_name, detach_from, is_backing_pvc_attached, attached_from,
}
use hcloud_csi_rwx.Controller.Evict.{evict_workload_pods, evict_loop}
use hcloud_csi_rwx.Provision.Nodes.{pick_node, choose, occupied_by, suitable, ready}
use hcloud_csi_rwx.Kube.Session.{
  ◌>>=◌, get_object, list_objects, create_object, delete_object, patch_object,
}
use hcloud_csi_rwx.Provision.Names.{volume_name, state_cm_name, share_pod_name, backing_pvc_name}
use hcloud_csi_rwx.Provision.Config.{share_namespace}
use hcloud_csi_rwx.Provision.Specs.{share_pod_json, service_json}
use hcloud_csi_rwx.Tests.Clients.{read_clients}

abbrev data_claim : PersistentVolumeClaim
data_claim = record {
  name = some "data";
  namespace = some "default";
  deletion_timestamp = none;
  spec = some (record {
    storage_class_name = some "hcloud-csi-rwx";
    access_modes = some ("ReadWriteMany" ∷ []);
    volume_name = some "pvc-1";
  });
}

abbrev start : Cluster
start = record empty_cluster { nodes = ("b", node_of "b") ∷ [] }

unfoldable after_round : Cluster → Cluster
after_round w =
    (reconcile_body cluster env codec data_claim (record { world = w; calls = [] })).1.world

start-AllShares : AllShares codec law (map_server env).find start
unfolding lookup
start-AllShares volume cm h = cc h

two_rounds : Reach cluster env codec (map_server env).find start (after_round (after_round start))
unfolding after_round
two_rounds = round data_claim [] start then round data_claim [] (after_round start) then here

Reach-AllShares_example :
    AllShares codec law (map_server env).find (after_round (after_round start))
Reach-AllShares_example =
    Reach-AllShares cluster env codec law (map_server env) start (after_round (after_round start))
      two_rounds start-AllShares

-- The first round puts the share on `b`; the second finds its pod without a phase and fails over.
two_rounds_run :
    lookup "state-pvc-1" (after_round (after_round start)).config_maps
    ≡ some (record {
      name = some "state-pvc-1";
      namespace = some "hcloud-csi-rwx";
      annotations = none;
      entries = some (
          state_data codec (record {
            volume = "pvc-1";
            node = none;
            prior_nodes = "b" ∷ [];
            state = "failing_over";
          }));
    })
unfolding state_cm state_of read_clients after_round reconcile_body reconcile_bound
    load_or_create_state ensure_service mark_missing force_detach_backing_pvc backing_pv_name
    detach_from save_state evict_workload_pods evict_loop is_backing_pvc_attached attached_from
    on_missing recreate pick_node_with_reset pick_node picked kube_err state_data retire_node choose
    occupied_by suitable ready ◌>>=◌ get_object list_objects create_object delete_object
    patch_object lookup insert extend volume_name state_cm_name share_pod_name backing_pvc_name
    share_namespace is_rwx_pvc share_pod_json service_json pod_node_ready on_pod
two_rounds_run = refl

failover-moves_example :
    ((load_or_create_state cluster env codec "pvc-1"
        (start_failover cluster env codec "pvc-1" "data" "default" st session).1).0
      ≡ ok (left st "a"))
    × MadeElsewhere cluster env codec "pvc-1" "data" "default" "a" session
        (recreate cluster env codec "pvc-1" "data" "default" (left st "a") session)
failover-moves_example =
    failover-moves cluster env codec law map_store others "pvc-1" "data" "default" st state_map "a"
      session session refl refl stored
