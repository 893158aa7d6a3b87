-- ===== src/Controller/Reconcile/Stored/Reachable.antt =====
-- The states of all shares along rounds of the controller and changes by others.
use hcloud_csi_rwx.Prelude.{String, ◌≡◌, ◌⊎◌, none, List, inl, inr, Option}
use hcloud_csi_rwx.Kube.{Client, PersistentVolumeClaim, ConfigMap}
use hcloud_csi_rwx.Kube.Session.{Call}
use hcloud_csi_rwx.Provision.Config.{Env}
use hcloud_csi_rwx.Controller.State.{Codec}
use hcloud_csi_rwx.Controller.State.Persistence.{StateCodec}
use hcloud_csi_rwx.Controller.Reconcile.{reconcile_body}
use hcloud_csi_rwx.Controller.Reconcile.Stored.{Server, AllShares, cm_of}
use hcloud_csi_rwx.Controller.Reconcile.Stored.Rounds.{reconcile_body-Keeps}

module _ {W : Type 0} (k : Client W) (env : Env) (c : Codec)
    (find : W → String → Option ConfigMap) where
  -- A round of the controller for some claim, or a change by others, after which the ConfigMap of
  -- each volume is the same or gone.
  pub data Step : W → W → Type 0 where
    round :
        (pvc : PersistentVolumeClaim) (calls : List Call) (w : W)
        → Step w (reconcile_body k env c pvc (record { world = w; calls = calls })).1.world
    others :
        (w w' : W)
        → ((volume : String)
            → (find w' (cm_of volume) ≡ find w (cm_of volume)) ⊎ (find w' (cm_of volume) ≡ none))
        → Step w w'

  infixr 5 ◌then◌
  pub data Reach : W → W → Type 0 where
    here : {w : W} → Reach w w
    ◌then◌ : {u v w : W} → Step u v → Reach v w → Reach u w

module _ {W : Type 0} (k : Client W) (env : Env) (c : Codec) (law : StateCodec c)
    (server : Server k env) where
  Step-AllShares :
      (u v : W)
      → Step k env c server.find u v
      → AllShares c law server.find u
      → AllShares c law server.find v
  Step-AllShares u v (round pvc calls w) i =
      (reconcile_body-Keeps k env c law server pvc).at (record { world = u; calls = calls }) i
  Step-AllShares u v (others w w' changed) i = λ volume cm h. elim (changed volume) [
    | inl same ↦ i volume cm (rw same at h)
    | inr gone ↦ cc (gone, h)
  ]

  -- With a codec that reads back what it writes, and a server whose other requests leave the
  -- ConfigMaps alone: where every ConfigMap under the name of a volume holds a state of its share,
  -- whose prior nodes are distinct, whose word is one of the three and which, where it starts, is on
  -- none of its prior nodes, the same is true after any rounds of the controller, whatever the
  -- requests answer, and any changes by others that at most delete these ConfigMaps.
  pub Reach-AllShares :
      (u w : W)
      → Reach k env c server.find u w
      → AllShares c law server.find u
      → AllShares c law server.find w
  Reach-AllShares u w here i = i
  Reach-AllShares u w (step then rest) i = Reach-AllShares _ w rest (Step-AllShares u _ step i)
