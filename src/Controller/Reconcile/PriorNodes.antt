-- ===== src/Controller/Reconcile/PriorNodes.antt =====
-- The prior nodes of a share when its node is retired and a new one is chosen.
use hcloud_csi_rwx.Prelude.{
  String, ◌≡◌, refl, false, none, some, List, [], ◌∷◌, ◌++◌, ◌||◌, arith, contains, str_eq_iff,
  Bool-cases, inl, inr, str_eq, Option-cases,
}
use hcloud_csi_rwx.Controller.State.{ShareState}
use hcloud_csi_rwx.Controller.Reconcile.{retire_node}

-- No name stands twice in the list.
abbrev pub HasNoRepeat : List String → Type 0
HasNoRepeat [] = Unit {0}
HasNoRepeat (x ∷ xs) = (contains xs x ≡ false) × HasNoRepeat xs

contains-append :
    (xs ys : List String) (a : String) → contains (xs ++ ys) a ≡ (contains xs a || contains ys a)
contains-append [] ys a = refl
contains-append (x ∷ xs) ys a = ground (arith, contains-append xs ys a)

HasNoRepeat-append :
    (xs : List String) (a : String)
    → contains xs a ≡ false
    → HasNoRepeat xs
    → HasNoRepeat (xs ++ a ∷ [])
HasNoRepeat-append [] a h n = (refl, tt)
HasNoRepeat-append (x ∷ xs) a h n = (
  ground
      (arith, contains-append xs (a ∷ []) x, h, n, str_eq_iff x a, str_eq_iff a x, str_eq_iff a a),
  HasNoRepeat-append xs a (ground (arith, h)) n.1,
)

-- For a share on a node, with no name twice among its prior nodes: retiring the node takes it off
-- the share, no name stands twice among the prior nodes, and they are those of before and that
-- node.
pub retire_node_lem :
    (st : ShareState) (n : String)
    → st.node ≡ some n
    → HasNoRepeat st.prior_nodes
    → ((retire_node st).node ≡ none)
      × HasNoRepeat (retire_node st).prior_nodes
      × ((m : String)
          → contains (retire_node st).prior_nodes m ≡ (str_eq n m || contains st.prior_nodes m))
unfolding retire_node
retire_node_lem st n e h = elim (Bool-cases (contains st.prior_nodes n)) [
  | inl f ↦ rw (e, f) (refl, h, λ m. ground (arith, f, str_eq_iff n m))
  | inr f ↦
      rw (e, f)
        (
          refl,
          HasNoRepeat-append st.prior_nodes n f h,
          λ m. ground (arith, contains-append st.prior_nodes (n ∷ []) m),
        )
]

-- With no name twice among the prior nodes, there is none after the node of the share is retired.
pub retire_node-HasNoRepeat :
    (st : ShareState) → HasNoRepeat st.prior_nodes → HasNoRepeat (retire_node st).prior_nodes
unfolding retire_node
retire_node-HasNoRepeat st h = elim (Option-cases st.node) [
  | inl e ↦ rw e h
  | inr (n, e) ↦ (retire_node_lem st n e h).1
]
