-- ===== src/Controller/Reconcile/Stored/Shares.antt =====
-- The changes that a round makes to the state of a share.
use hcloud_csi_rwx.Prelude.{
  String, ◌≡◌, refl, false, some, Option, contains, inl, inr, Option-cases, last?,
}
use hcloud_csi_rwx.Controller.State.{ShareState, new_state, reset_prior}
use hcloud_csi_rwx.Controller.Reconcile.Stored.{cm_of, IsShare}
use hcloud_csi_rwx.Controller.Reconcile.{retire_node}
use hcloud_csi_rwx.Controller.Reconcile.PriorNodes.{HasNoRepeat, retire_node-HasNoRepeat}

-- The same share under another volume of the same name.
pub renamed :
    (volume volume' : String) (st : ShareState)
    → IsShare volume st
    → cm_of st.volume ≡ cm_of volume'
    → IsShare volume' st
renamed volume volume' st i e = record {
  named = e;
  distinct = i.distinct;
  known = i.known;
  moved = i.moved;
}

pub new_state-IsShare : (volume : String) → IsShare volume (new_state volume)
new_state-IsShare volume = record { named = refl; distinct = tt; known = refl; moved = λ n e f. cc }

pub retired-kept :
    (st : ShareState) → ((retire_node st).volume ≡ st.volume) × ((retire_node st).state ≡ st.state)
unfolding retire_node
retired-kept st = elim (Option-cases st.node) [
  | inl e ↦ rw e (refl, refl)
  | inr (n, e) ↦ rw e (refl, refl)
]

pub reset_prior-distinct : (st : ShareState) → HasNoRepeat (reset_prior st).prior_nodes
reset_prior-distinct st = elim (Option-cases (last? st.prior_nodes)) [
  | inl e ↦ rw (HasNoRepeat, e) tt
  | inr (n, e) ↦ rw (HasNoRepeat, e) (refl, tt)
]

pub failing-IsShare :
    (volume : String) (st : ShareState)
    → IsShare volume st
    → IsShare volume (record st { state = "failing_over" })
failing-IsShare volume st i = record {
  named = i.named;
  distinct = i.distinct;
  known = refl;
  moved = λ n e f. cc;
}

pub running-IsShare :
    (volume : String) (st : ShareState) (host : Option String)
    → IsShare volume st
    → IsShare volume (record st { node = host; state = "running" })
running-IsShare volume st host i = record {
  named = i.named;
  distinct = i.distinct;
  known = refl;
  moved = λ n e f. cc;
}

pub retired-IsShare :
    (volume : String) (st : ShareState)
    → IsShare volume st
    → IsShare volume (record (retire_node st) { state = "failing_over" })
retired-IsShare volume st i = record {
  named = rw (retired-kept st).0 i.named;
  distinct = retire_node-HasNoRepeat st i.distinct;
  known = refl;
  moved = λ n e f. cc;
}

abbrev pub starting : String → ShareState → ShareState
starting n st = record st { node = some n; state = "starting" }

pub starting-IsShare :
    (volume : String) (st : ShareState) (n : String)
    → cm_of st.volume ≡ cm_of volume
    → HasNoRepeat st.prior_nodes
    → contains st.prior_nodes n ≡ false
    → IsShare volume (starting n st)
starting-IsShare volume st n e d f = record {
  named = e;
  distinct = d;
  known = refl;
  moved = λ m _ h. let same : n ≡ m = cc h in rw (← same) f;
}
