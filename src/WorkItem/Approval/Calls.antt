-- ===== src/WorkItem/Approval/Calls.antt =====
-- About the review gate in the handlers of core/work_item/_native.py that may approve an item.
use agent_notes.Prelude.{String, ◌≡◌, none, some, ℕ}
use agent_notes.Lifecycle.{Status, closed, done}
use agent_notes.Ops.{Fields, has_any}
use agent_notes.Store.{Host, Tx}
use agent_notes.Store.Rows.{Row}
use agent_notes.Store.Steps.{SameCore}
use agent_notes.WorkItem.Update.{Edit, update_work_item, changed_fields}
use agent_notes.WorkItem.Close.{close_work_item, close_work_item_force}
use agent_notes.Ops.{has_any, Fields}
use agent_notes.Lifecycle.{done, closed}
use agent_notes.WorkItem.Verdict.{Verdict, review_transition, target_status}
use agent_notes.WorkItem.Update.{Edit, update_work_item}
use agent_notes.Store.Steps.{SameCore}
use agent_notes.WorkItem.Update.{changed_fields}

-- The calls that may move an item on without an acknowledgement and without a delegated attempt: an
-- update of the status, both closes, and a verdict.
pub data Approving : Type 0 where
  updating : (edit : Edit) (s : Status) → edit.status ≡ some s → Approving
  closing forcing : Approving
  reviewing : Verdict → String → Approving

abbrev pub call : Host → ℕ → String → Approving → Tx Row
call host p i (updating edit s e) = update_work_item host p i edit
call host p i closing = close_work_item host p i
call host p i forcing = close_work_item_force host p i
call host p i (reviewing v text) = review_transition host p i v text none none

abbrev pub target : Approving → Status
unfolding target_status
target (updating edit s e) = s
target closing = done
target forcing = closed
target (reviewing v text) = target_status v
