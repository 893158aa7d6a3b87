-- ===== src/Provision/Nodes/Choice.antt =====
-- What `pick_node` chooses.
use hcloud_csi_rwx.Prelude.{
  String, ◌≡◌, refl, true, false, none, some, List, [], ◌∷◌, ◌++◌, arith, contains, All, Bool-cases,
  inl, inr, ◌⊎◌, Option-cases, ap,
}
use hcloud_csi_rwx.Kube.{ok, err, Pod, Node, Client}
use hcloud_csi_rwx.Kube.Session.{Session, ◌>>=◌, list_objects}
use hcloud_csi_rwx.Provision.Config.{Env, share_namespace}
use hcloud_csi_rwx.Provision.Nodes.{
  message, ready, node_name, suitable, occupied_by, choose, pick_node,
}

-- `name` is the first node of the list that is Ready, not avoided and not occupied.
pub record IsFirst (avoid occupied : List String) (nodes : List Node) (name : String) : Type 0 where
  pub before : List Node
  pub node : Node
  pub after : List Node
  pub split : nodes ≡ before ++ (node ∷ after)
  pub passed : All (λ n. suitable avoid occupied n ≡ false) before
  pub is_ready : ready node ≡ true
  pub free : contains avoid name ≡ false
  pub vacant : contains occupied name ≡ false
  pub named : node_name node ≡ name

suitable_parts :
    (avoid occupied : List String) (n : Node)
    → suitable avoid occupied n ≡ true
    → (ready n ≡ true)
      × (contains avoid (node_name n) ≡ false)
      × (contains occupied (node_name n) ≡ false)
unfolding suitable
suitable_parts avoid occupied n h = ground arith

choose-IsFirst :
    (avoid occupied : List String) (nodes : List Node) (name : String)
    → choose avoid occupied nodes ≡ some name
    → IsFirst avoid occupied nodes name
unfolding choose
choose-IsFirst avoid occupied [] name h = cc
choose-IsFirst avoid occupied (n ∷ nodes) name h = elim (Bool-cases (suitable avoid occupied n)) [
  | inl e ↦
      let same : node_name n ≡ name = ground arith in
      let (r, f, v) = suitable_parts avoid occupied n e in
      record {
        before = [];
        node = n;
        after = nodes;
        split = refl;
        passed = tt;
        is_ready = r;
        free = rw (← same) f;
        vacant = rw (← same) v;
        named = same;
      }
  | inr e ↦
      let later = choose-IsFirst avoid occupied nodes name (rw e at h) in
      record {
        before = n ∷ later.before;
        node = later.node;
        after = later.after;
        split = ap (λ ns. n ∷ ns) later.split;
        passed = (e, later.passed);
        is_ready = later.is_ready;
        free = later.free;
        vacant = later.vacant;
        named = later.named;
      }
]

choose-none :
    (avoid occupied : List String) (nodes : List Node)
    → choose avoid occupied nodes ≡ none
    → All (λ n. suitable avoid occupied n ≡ false) nodes
unfolding choose
choose-none avoid occupied [] h = tt
choose-none avoid occupied (n ∷ nodes) h = elim (Bool-cases (suitable avoid occupied n)) [
  | inl e ↦ cc (rw e at h)
  | inr e ↦ (e, choose-none avoid occupied nodes (rw e at h))
]

module _ {W : Type 0} (k : Client W) (env : Env) (avoid : List String) (s : Session W)
    (pods : List Pod) (nodes : List Node)
    (listed : ((k.pods (share_namespace env)).list (some "rwx-volume") s.world).0 ≡ ok pods)
    (found : (k.nodes.list none
        ((k.pods (share_namespace env)).list (some "rwx-volume") s.world).1).0
      ≡ ok nodes) where
  -- Where both lists are answered, `pick_node` returns the first node that is Ready, not avoided and
  -- hosts no share-manager; it fails only where there is no such node.
  pub pick_node_lem :
      ((name : String) × ((pick_node k env avoid s).0 ≡ ok name)
        × IsFirst avoid (occupied_by pods) nodes name)
      ⊎ (((pick_node k env avoid s).0 ≡ err (message "no suitable node found"))
          × All (λ n. suitable avoid (occupied_by pods) n ≡ false) nodes)
  unfolding pick_node ◌>>=◌ list_objects
  pick_node_lem =
      rw (listed, found)
        (elim (Option-cases (choose avoid (occupied_by pods) nodes)) [
          | inl e ↦ inr (rw e, choose-none avoid (occupied_by pods) nodes e)
          | inr (name, e) ↦ inl (name, rw e, choose-IsFirst avoid (occupied_by pods) nodes name e)
        ])
