-- ===== src/Controller/Evict/Exact.antt =====
-- Which pods an eviction deletes.
use hcloud_csi_rwx.Prelude.{
  String, ◌≡◌, refl, false, none, List, [], ◌∷◌, ◌||◌, is_empty, filter, map, onto, Bool-cases, inl,
  inr,
}
use hcloud_csi_rwx.Kube.{ok, Pod, Client}
use hcloud_csi_rwx.Kube.Session.{
  Session, Call, list, delete, pods, ◌>>=◌, list_objects, delete_object,
}
use hcloud_csi_rwx.Controller.Evict.{has_claim, pod_name, evict_loop, evict_workload_pods}

-- The deletion of each pod that mounts the claim, in the order of the list.
abbrev pub evictions : String → String → List Pod → List Call
evictions pvc_name pvc_ns l =
    map (λ p. delete (pods pvc_ns) (pod_name p)) (filter (has_claim pvc_name) l)

module _ {W : Type 0} (k : Client W) where
  evict_loop_calls :
      (pvc_name pvc_ns : String) (l : List Pod) (s : Session W)
      → ((evict_loop k pvc_name pvc_ns l s).0 ≡ ok tt)
        × ((evict_loop k pvc_name pvc_ns l s).1.calls ≡ onto (evictions pvc_name pvc_ns l) s.calls)
  unfolding evict_loop ◌>>=◌ delete_object
  evict_loop_calls pvc_name pvc_ns [] s = (refl, refl)
  evict_loop_calls pvc_name pvc_ns (p ∷ l) s = elim (Bool-cases (has_claim pvc_name p)) [
    | inl e ↦ rw e (evict_loop_calls pvc_name pvc_ns l _)
    | inr e ↦ rw e (evict_loop_calls pvc_name pvc_ns l s)
  ]

  -- Where the claim has a name and a namespace whose pods can be listed, exactly the pods there that
  -- mount the claim are deleted, also past deletions that fail.
  pub evict-exact :
      (pvc_name pvc_ns : String) (l : List Pod) (s : Session W)
      → (is_empty pvc_name || is_empty pvc_ns) ≡ false
      → ((k.pods pvc_ns).list none s.world).0 ≡ ok l
      → ((evict_workload_pods k pvc_name pvc_ns s).0 ≡ ok tt)
        × ((evict_workload_pods k pvc_name pvc_ns s).1.calls
            ≡ onto (list (pods pvc_ns) ∷ evictions pvc_name pvc_ns l) s.calls)
  unfolding evict_workload_pods ◌>>=◌ list_objects
  evict-exact pvc_name pvc_ns l s named listed =
      rw (named, listed) (evict_loop_calls pvc_name pvc_ns l _)
