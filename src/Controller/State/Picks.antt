-- ===== src/Controller/State/Picks.antt =====
-- Which node the controller chooses, and what it forgets of the earlier ones.
use hcloud_csi_rwx.Prelude.{
  String, ◌≡◌, true, false, none, some, List, arith, contains, ltb, length, Bool-cases, inl, inr,
  ◌⊎◌, sym,
}
use hcloud_csi_rwx.Kube.{Client, ok, Result-cases}
use hcloud_csi_rwx.Kube.Session.{Session, ◌>>=◌, list_objects}
use hcloud_csi_rwx.Provision.Config.{Env, share_namespace}
use hcloud_csi_rwx.Provision.Nodes.{pick_node}
use hcloud_csi_rwx.Provision.Nodes.Choice.{pick_node_lem}
use hcloud_csi_rwx.Controller.State.{Codec, ShareState, pick_node_with_reset, reset_prior}

module _ {W : Type 0} (k : Client W) (env : Env) (c : Codec) where
  pick_node-avoids :
      (avoid : List String) (n : String) (s : Session W)
      → (pick_node k env avoid s).0 ≡ ok n
      → contains avoid n ≡ false
  unfolding pick_node ◌>>=◌ list_objects
  pick_node-avoids avoid n s h =
      elim (Result-cases ((k.pods (share_namespace env)).list (some "rwx-volume") s.world).0) [
        | inl (e, f) ↦ cc (rw f at h)
        | inr (pods, f) ↦
            elim (Result-cases
              (k.nodes.list none
                ((k.pods (share_namespace env)).list (some "rwx-volume") s.world).1).0) [
                  | inl (e, g) ↦ cc (rw (f, g) at h)
                  | inr (nodes, g) ↦ elim (pick_node_lem k env avoid s pods nodes f g) [
                    | inl (name, found, first) ↦ ground (arith, h, found, first.free)
                    | inr (none_found, all) ↦ cc (h, none_found)
                  ]
                ]
      ]

  -- Where a node is chosen for a share, it is none of the prior nodes that the state has
  -- afterwards. That state is the one of before, or, where there was more than one prior node, the
  -- one that forgets all but the last.
  pub pick_node_with_reset_lem :
      (st st' : ShareState) (n : String) (s s' : Session W)
      → pick_node_with_reset k env c st s ≡ (ok (n, st'), s')
      → (contains st'.prior_nodes n ≡ false)
        × ((st' ≡ st) ⊎ ((ltb 1 (length st.prior_nodes) ≡ true) × (st' ≡ reset_prior st)))
  unfolding pick_node_with_reset ◌>>=◌
  pick_node_with_reset_lem st st' n s s' h =
      elim (Result-cases (pick_node k env st.prior_nodes s).0) [
        | inl (e, f) ↦ elim (Bool-cases (ltb 1 (length st.prior_nodes))) [
          | inl many ↦
              elim (Result-cases
                (pick_node k env (reset_prior st).prior_nodes
                  (pick_node k env st.prior_nodes s).1).0) [
                    | inl (e', g) ↦ cc (rw (f, many, g) at h)
                    | inr (m, g) ↦
                        let same = rw (f, many, g) at h in
                        let reset : reset_prior st ≡ st' = cc same in
                        let chosen : m ≡ n = cc same in
                        (
                          rw (← reset, ← chosen)
                              (pick_node-avoids (reset_prior st).prior_nodes m
                                (pick_node k env st.prior_nodes s).1 g),
                          inr (many, sym reset),
                        )
                  ]
          | inr few ↦ cc (rw (f, few) at h)
        ]
        | inr (m, f) ↦
            let same = rw f at h in
            let kept : st ≡ st' = cc same in
            let chosen : m ≡ n = cc same in
            (rw (← kept, ← chosen) (pick_node-avoids st.prior_nodes m s f), inl (sym kept))
      ]
