-- ===== src/Tests/Held.antt =====
-- A cluster whose node does not let go of the volume of `pvc-1`.
use hcloud_csi_rwx.Prelude.{String, ◌≡◌, refl, Option, none, some, [], ◌∷◌}
use hcloud_csi_rwx.Map.{Map, lookup}
use hcloud_csi_rwx.Kube.{Client, MergePatch, ok}
use hcloud_csi_rwx.Kube.Keeps.{Quiet}
use hcloud_csi_rwx.Kube.Avoids.{count}
use hcloud_csi_rwx.Provision.Names.{volume_name, backing_pvc_name}
use hcloud_csi_rwx.Controller.Reconcile.{on_missing}
use hcloud_csi_rwx.Controller.Reconcile.Pods.{creates_pod}
use hcloud_csi_rwx.Controller.Reconcile.Requests.{Quiets}
use hcloud_csi_rwx.Controller.Reconcile.Attached.{StaysAttached, on_missing-attached}
use hcloud_csi_rwx.Tests.Cluster.{
  Cluster, cluster, Table, created, deleted, patched, table_api, map_table, pod_table,
  service_table, node_table,
}
use hcloud_csi_rwx.Tests.Shares.{env, codec, st, session, volume_claim, attachment_of}

-- An API server that accepts deletions of attachments, which finalizers hold back, and no changes to
-- claims.
abbrev held : Client Cluster
held = record cluster {
  claims =
      λ ns. record (cluster.claims ns) { create = λ o w. (ok o, w); delete = λ name w. (ok tt, w) };
  attachments = record cluster.attachments {
    create = λ o w. (ok o, w);
    delete = λ name w. (ok tt, w);
  };
}

abbrev IsHeld : Cluster → Type 0
IsHeld w =
    (w.claims ≡ ("pvc-1-backing", volume_claim) ∷ [])
    × (w.attachments ≡ ("csi-1", attachment_of "csi-1") ∷ [])

module _ {K : Type 0} (t : Table Cluster K)
    (apart : (m : Map K) (w : Cluster) → IsHeld w → IsHeld (t.store m w)) where
  created-IsHeld :
      (n : String) (o : K) (w : Cluster) (old : Option K)
      → IsHeld w
      → IsHeld (created t n o w old).1
  created-IsHeld n o w none h = apart _ w h
  created-IsHeld n o w (some k) h = h

  deleted-IsHeld :
      (n : String) (w : Cluster) (old : Option K) → IsHeld w → IsHeld (deleted t n w old).1
  deleted-IsHeld n w none h = h
  deleted-IsHeld n w (some k) h = apart _ w h

  patched-IsHeld :
      (n : String) (p : MergePatch) (w : Cluster) (old : Option K)
      → IsHeld w
      → IsHeld (patched t n p w old).1
  patched-IsHeld n p w none h = h
  patched-IsHeld n p w (some k) h = apart _ w h

  table-Quiet : Quiet IsHeld (table_api t)
  table-Quiet = record {
    get = λ n w h. h;
    list = λ l w h. h;
    create = λ o w h. created-IsHeld _ o w _ h;
    delete = λ n w h. deleted-IsHeld n w _ h;
  }

quiets : Quiets held IsHeld
quiets = record {
  pods = λ ns. table-Quiet pod_table (λ m w h. h);
  claims = λ ns. record {
    get = λ n w h. h;
    list = λ l w h. h;
    create = λ o w h. h;
    delete = λ n w h. h;
  };
  services = λ ns. table-Quiet service_table (λ m w h. h);
  nodes = table-Quiet node_table (λ m w h. h);
  attachments = record {
    get = λ n w h. h;
    list = λ l w h. h;
    create = λ o w h. h;
    delete = λ n w h. h;
  };
}

stays : StaysAttached held env "pvc-1" IsHeld
unfolding lookup volume_name backing_pvc_name
stays = record {
  pv = "pv-7";
  claim = volume_claim;
  is_bound = refl;
  named = refl;
  quiets = quiets;
  patch = λ n p w h. patched-IsHeld map_table (λ m v g. g) n p w _ h;
  reads_claim = λ w h. rw h.0 refl;
  lists = λ l w h.
      (attachment_of "csi-1" ∷ [], rw h.1 refl, ([], attachment_of "csi-1", [], refl, refl));
}

on_missing-attached_example :
    count creates_pod (on_missing held env codec "pvc-1" "data" "default" st session).1.calls
    ≡ count creates_pod session.calls
on_missing-attached_example =
    on_missing-attached held env codec "pvc-1" IsHeld stays "data" "default" st session (refl, refl)
