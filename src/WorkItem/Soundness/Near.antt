-- ===== src/WorkItem/Soundness/Near.antt =====
-- What a sealing snapshot makes of a state that is near to the row.
use agent_notes.Prelude.{◌≡◌, refl, ap, Bool, true, false, Option, none, some, [], ◌∷◌, arith}
use agent_notes.Ops.Objects.{Json}
use agent_notes.Ops.{Op, entry, snapshot, assign, has_any}
use agent_notes.Kernel.{State, Folded, update_fields, outcome, fold_group}
use agent_notes.Kernel.Snapshots.{group_sealed}
use agent_notes.Store.{Host, embedding_equal}
use agent_notes.Store.Rows.{Row, state_of}
use agent_notes.WorkItem.{sealed_fields, differing}

-- A state that a snapshot of the row turns into the row's state: it is that already, or it is the
-- state of a stub, which has no vector.
pub data IsNear (row : Row) (s : State) : Type 0 where
  whole : s ≡ state_of row → IsNear row s
  bare : s.entity_id ≡ row.entity_id → s.embedding ≡ none → IsNear row s

assign-entry : {A : Type 0} (o old : Option A) → assign (entry o) old ≡ o
assign-entry none old = refl
assign-entry (some a) old = refl

sealed_whole :
    (row : Row) (b : Bool) → update_fields (state_of row) (sealed_fields row b) ≡ state_of row
unfolding update_fields
sealed_whole row true =
    ap (λ x. record (state_of row) { embedding = x }) (assign-entry row.embedding row.embedding)
sealed_whole row false = refl

embedding_none : (host : Host) (x : Option Json) → embedding_equal host none x ≡ true → x ≡ none
unfolding embedding_equal
embedding_none host none h = refl
embedding_none host (some a) h = cc

differing_embedding :
    (host : Host) (s : State) (row : Row)
    → differing host s row ≡ []
    → embedding_equal host s.embedding row.embedding ≡ true
unfolding differing
differing_embedding host s row h = ground arith

pub near_sealed :
    (host : Host) (row : Row) (s : State) (b : Bool)
    → IsNear row s
    → differing host (update_fields s (sealed_fields row b)) row ≡ []
    → update_fields s (sealed_fields row b) ≡ state_of row
unfolding update_fields
near_sealed host row s b (whole e) h = rw e (sealed_whole row b)
near_sealed host row s true (bare own bare_none) h =
    rw (own, assign-entry row.embedding s.embedding) refl
near_sealed host row s false (bare own bare_none) h =
    let same : row.embedding ≡ none =
      embedding_none host row.embedding (rw bare_none at (differing_embedding host _ row h)) in
    rw (own, bare_none, same) refl

pub seal_outcome :
    (acc : Folded) (op : Op) (row : Row) (b : Bool)
    → op.op_type ≡ snapshot
    → op.payload.tombstone ≡ false
    → op.payload.sealed_state ≡ some (sealed_fields row b)
    → outcome (fold_group acc (op ∷ [])) ≡ some (update_fields acc.state (sealed_fields row b))
unfolding update_fields has_any
seal_outcome acc op row b t d f = ap outcome (group_sealed acc op (sealed_fields row b) t d f refl)
