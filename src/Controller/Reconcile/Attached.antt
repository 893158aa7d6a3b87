-- ===== src/Controller/Reconcile/Attached.antt =====
-- No new pod while the backing volume is attached: `on_missing` with `is_backing_pvc_attached`.
use hcloud_csi_rwx.Prelude.{
  String, ◌≡◌, refl, true, Option, some, List, [], ◌∷◌, ◌++◌, any, and_then, arith, inl, inr, ◌∙◌,
  str_eq_iff, is_empty, false, none,
}
use hcloud_csi_rwx.Kube.{
  Client, ok, Result-cases, KubeError, MergePatch, PersistentVolumeClaim, VolumeAttachment,
}
use hcloud_csi_rwx.Kube.Session.{Session, ◌>>=◌, get_object, list_objects, patch_object, attempt}
use hcloud_csi_rwx.Kube.Keeps.{Keeps, keeps_rules, Keeps-bind, Keeps-pure, Keeps-map_err}
use hcloud_csi_rwx.Kube.Avoids.{count}
use hcloud_csi_rwx.Provision.Config.{Env, share_namespace}
use hcloud_csi_rwx.Provision.Names.{volume_name, backing_pvc_name}
use hcloud_csi_rwx.Controller.State.{Codec, ShareState, save_state}
use hcloud_csi_rwx.Controller.Detach.{
  attached_to, backing_pv_name, attached_from, is_backing_pvc_attached, force_detach_backing_pvc,
}
use hcloud_csi_rwx.Controller.Reconcile.{on_missing, mark_missing, detached}
use hcloud_csi_rwx.Controller.Reconcile.Pods.{
  creates_pod, mark_missing-creates_none, force_detach-creates_none, is_attached-creates_none,
}
use hcloud_csi_rwx.Controller.Reconcile.Requests.{Quiets, force_detach-Keeps, evict-Keeps}

-- The attachments list one of the volume.
abbrev pub ListsAttached : String → List VolumeAttachment → Type 0
ListsAttached pv l =
    (before : List VolumeAttachment) × (va : VolumeAttachment) × (after : List VolumeAttachment)
    × (l ≡ before ++ va ∷ after)
    × (va.persistent_volume_name ≡ some pv)

-- In the worlds of `I` the backing claim of the volume is bound, and its volume is attached, to
-- whatever node; no request of the controller changes that, not even the deletion of the attachment,
-- as where the node of the old pod does not let go.
pub record StaysAttached {W : Type 0} (k : Client W) (env : Env) (volume : String) (I : W → Type 0)
    : Type 0 where
  pub pv : String
  pub claim : PersistentVolumeClaim
  pub is_bound : and_then claim.spec (λ s. s.volume_name) ≡ some pv
  pub named : is_empty pv ≡ false
  pub quiets : Quiets k I
  pub patch :
      (n : String) (p : MergePatch) (w : W)
      → I w
      → I ((k.config_maps (share_namespace env)).patch n p w).1
  pub reads_claim :
      (w : W)
      → I w
      → ((k.claims (share_namespace env)).get (backing_pvc_name (volume_name volume)) w).0
        ≡ ok claim
  pub lists :
      (selector : Option String) (w : W)
      → I w
      → (l : List VolumeAttachment) × ((k.attachments.list selector w).0 ≡ ok l)
        × ListsAttached pv l

attached-any :
    (pv : String) (before : List VolumeAttachment) (va : VolumeAttachment)
    (after : List VolumeAttachment)
    → va.persistent_volume_name ≡ some pv
    → any (attached_to pv) (before ++ va ∷ after) ≡ true
attached-any pv [] va after e = rw e (ground (arith, str_eq_iff pv pv))
attached-any pv (b ∷ bs) va after e = ground (arith, attached-any pv bs va after e)

module _ {W : Type 0} (k : Client W) (env : Env) (c : Codec) (volume : String) (I : W → Type 0)
    (stays : StaysAttached k env volume I) where
  is_attached-true :
      (s : Session W)
      → I s.world
      → (is_backing_pvc_attached k env {E = KubeError} (volume_name volume) s).0 ≡ ok true
  unfolding is_backing_pvc_attached backing_pv_name attached_from ◌>>=◌ get_object list_objects
  is_attached-true s i =
      let kept =
        (stays.quiets.claims (share_namespace env)).get (backing_pvc_name (volume_name volume))
          s.world i in
      let (l, listed, (before, va, after, e, here)) =
        stays.lists none
          ((k.claims (share_namespace env)).get (backing_pvc_name (volume_name volume)) s.world).1
          kept in
      rw (stays.reads_claim s.world i, stays.is_bound, stays.named, listed, e)
        (rw (attached-any stays.pv before va after here) refl)

  save_state-Keeps : (st : ShareState) → Keeps I (save_state k env c st)
  unfolding save_state patch_object
  save_state-Keeps st =
      Keeps-bind _ _ (Keeps-map_err _ _ (record { at = λ t i. stays.patch _ _ t.world i }))
        (λ _. Keeps-pure tt)

  module _ (pvc_name pvc_ns : String) where
    mark_missing-Keeps :
        (st : ShareState) → Keeps I (mark_missing k env c volume pvc_name pvc_ns st)
    unfolding mark_missing
    mark_missing-Keeps st =
        search (keeps_rules, save_state-Keeps, (evict-Keeps k env c I stays.quiets)) depth 8

    -- While the backing claim reads as bound to a volume and the attachments list one of that volume,
    -- which no request of the controller changes: a round without a pod creates no pod, whatever the
    -- state of the share, and whatever its other requests answer, the deletion of the attachment
    -- included.
    pub on_missing-attached :
        (st : ShareState) (s : Session W)
        → I s.world
        → count creates_pod (on_missing k env c volume pvc_name pvc_ns st s).1.calls
          ≡ count creates_pod s.calls
    unfolding on_missing detached ◌>>=◌ attempt
    on_missing-attached st s i =
        let marks = mark_missing k env c volume pvc_name pvc_ns st s in
        let before = (mark_missing-creates_none k env c volume pvc_name pvc_ns st).at s in
        elim (Result-cases marks.0) [
          | inl (e, h) ↦ rw h before
          | inr (marked, h) ↦
              let forced = force_detach_backing_pvc k env (volume_name volume) marks.1 in
              let during = (force_detach-creates_none k env c (volume_name volume)).at marks.1 in
              elim (Result-cases forced.0) [
                | inl (e, g) ↦ rw (h, g) (during ∙ before)
                | inr (u, g) ↦
                    let there =
                      (force_detach-Keeps k env c I stays.quiets (volume_name volume)).at marks.1
                        ((mark_missing-Keeps st).at s i) in
                    let after =
                      (is_attached-creates_none k env c {E = KubeError} (volume_name volume)).at
                        forced.1 in
                    rw (h, g, is_attached-true forced.1 there) (after ∙ during ∙ before)
              ]
        ]
