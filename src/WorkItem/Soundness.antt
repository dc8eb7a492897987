-- ===== src/WorkItem/Soundness.antt =====
-- About the cache and the log, and the parts that the handlers of core/work_item/_native.py share.
pub mod Near
pub mod Sealing
pub mod Handlers
pub mod Heartbeat
use agent_notes.Prelude.{ℕ, String, ◌≡◌, refl, Bool, true, false, not, Option, none, some, arith}
use agent_notes.Lifecycle.{Status, claimed}
use agent_notes.Ops.{Fields, Evidence, Reviewer, Op}
use agent_notes.Lifecycle.{Transition}
use agent_notes.Store.Rows.{Row}
use agent_notes.Store.{Db, Host, Tx, pure, Word, ◌>>=◌, ◌>>◌, Attempt, AttemptStatus}
use agent_notes.Store.Steps.{
  IsQuiet, IsTouching, IsMending, IsSafe, pure-IsQuiet, raise-IsQuiet, reads-IsQuiet, lift-IsQuiet,
  found_or-IsQuiet, require-IsQuiet, if-IsQuiet, if-IsTouching, bind-IsQuiet, bind-IsTouching,
  bind-IsMending, mended-bind, IsTouching-of_quiet, IsSafe-of_quiet, store_blob-IsQuiet,
  emit_event-IsQuiet, write_change-IsQuiet,
}
use agent_notes.Store.Chain.{commit_op-IsTouching, refold-IsMending}
use agent_notes.WorkItem.{
  resolve_workspace_for_project, require_repo_project, validate_vocab, validate_given,
  load_work_item_row,
}
use agent_notes.WorkItem.Update.{
  store_body, approve, preflight, move_status, move_if_changed, edit_fields, Edit,
}
use agent_notes.WorkItem.Close.{delete_lease}
use agent_notes.WorkItem.Leases.{grant_lease, renew_lease, reopen_claimed}
use agent_notes.WorkItem.Verdict.{refuse_attempt, given_attempt, judge, choose_reviewer, consume}
use agent_notes.Review.Attempts.{
  attempt_reviewer, consume_attempt, compare_and_set, get_attempt, mark_transition_pending,
  mark_transition_applied,
}

pub ruleset quiet_rules = (
  pure-IsQuiet, raise-IsQuiet, reads-IsQuiet, lift-IsQuiet, found_or-IsQuiet, require-IsQuiet,
  if-IsQuiet, bind-IsQuiet, store_blob-IsQuiet, emit_event-IsQuiet, write_change-IsQuiet,
)

pub resolve_workspace-IsQuiet : (p : ℕ) → IsQuiet (resolve_workspace_for_project p)
unfolding resolve_workspace_for_project
resolve_workspace-IsQuiet p = search quiet_rules

pub require_repo_project-IsQuiet : (p : ℕ) → IsQuiet (require_repo_project p)
unfolding require_repo_project
require_repo_project-IsQuiet p = search quiet_rules

pub validate_vocab-IsQuiet : (w : ℕ) (x : Word) → IsQuiet (validate_vocab w x)
unfolding validate_vocab
validate_vocab-IsQuiet w x = search quiet_rules

pub validate_given-IsQuiet : (w : ℕ) (x : Option Word) → IsQuiet (validate_given w x)
unfolding validate_given
validate_given-IsQuiet w none = search quiet_rules
validate_given-IsQuiet w (some x) = validate_vocab-IsQuiet w x

pub load_work_item_row-IsQuiet : (p : ℕ) (i : String) → IsQuiet (load_work_item_row p i)
unfolding load_work_item_row
load_work_item_row-IsQuiet p i = search quiet_rules

pub store_body-IsQuiet : (host : Host) (body : Option String) → IsQuiet (store_body host body)
unfolding store_body
store_body-IsQuiet host none = search quiet_rules
store_body-IsQuiet host (some b) = search quiet_rules

pub approve-IsQuiet :
    (host : Host) (old : Row) (review edits : Bool) → IsQuiet (approve host old review edits)
unfolding approve
approve-IsQuiet host old false edits = search quiet_rules
approve-IsQuiet host old true edits = search quiet_rules

pub preflight-IsQuiet : (force : Bool) (a b : Status) → IsQuiet (preflight force a b)
unfolding preflight
preflight-IsQuiet true a b = search quiet_rules
preflight-IsQuiet false a b = search quiet_rules

pub delete_lease-IsQuiet : (e : ℕ) → IsQuiet (delete_lease e)
unfolding delete_lease
delete_lease-IsQuiet e = record { keeps = λ db a end h. ground arith }

pub grant_lease-IsQuiet : (host : Host) (e ttl : ℕ) → IsQuiet (grant_lease host e ttl)
unfolding grant_lease
grant_lease-IsQuiet host e ttl = record { keeps = λ db a end h. ground arith }

pub renew_lease-IsQuiet : (host : Host) (e ttl : ℕ) → IsQuiet (renew_lease host e ttl)
unfolding renew_lease
renew_lease-IsQuiet host e ttl = record { keeps = λ db a end h. ground arith }

pub ruleset touch_rules =
    (commit_op-IsTouching, bind-IsTouching, if-IsTouching, IsTouching-of_quiet)

pub move_status-IsTouching :
    (host : Host) (old : Row) (force edits : Bool) (s : Status)
    → IsTouching old.entity_id (move_status host old force edits s)
unfolding move_status
move_status-IsTouching host old force edits s =
    search (touch_rules, quiet_rules, approve-IsQuiet, preflight-IsQuiet)

pub move_if_changed-IsTouching :
    (host : Host) (old : Row) (force edits : Bool) (s : Option Status)
    → IsTouching old.entity_id (move_if_changed host old force edits s)
unfolding move_if_changed
move_if_changed-IsTouching host old force edits none = search (touch_rules, quiet_rules)
move_if_changed-IsTouching host old force edits (some s) =
    move_status-IsTouching host old force edits s

pub edit_fields-IsTouching :
    (host : Host) (old : Row) (f : Fields) → IsTouching old.entity_id (edit_fields host old f)
unfolding edit_fields
edit_fields-IsTouching host old f = search (touch_rules, quiet_rules)

pub reopen_claimed-IsTouching :
    (host : Host) (old : Row) (op : Op) (s : Status)
    → IsTouching old.entity_id (reopen_claimed host old op s)
unfolding reopen_claimed
reopen_claimed-IsTouching host old op claimed = search (touch_rules, quiet_rules)
reopen_claimed-IsTouching host old op _ = search (touch_rules, quiet_rules)

pub compare_and_set-IsQuiet :
    (i : String) (a b : AttemptStatus) (f : Attempt → Attempt) → IsQuiet (compare_and_set i a b f)
unfolding compare_and_set
compare_and_set-IsQuiet i a b f = record { keeps = λ db x end h. ground arith }

pub consume_attempt-IsQuiet :
    (r : Reviewer) (t : Transition) (op_id : ℕ) → IsQuiet (consume_attempt r t op_id)
unfolding consume_attempt
consume_attempt-IsQuiet r t op_id = consumed r.attempt_id
  where
    consumed :
        (a : Option String)
        → IsQuiet (elim a [
          | none ↦ pure tt
          | some key ↦ mark_transition_pending key t op_id >> mark_transition_applied key
        ])
    consumed none = search quiet_rules
    consumed (some key) = search (quiet_rules, compare_and_set-IsQuiet)

pub consume-IsQuiet :
    (judged : Option (Reviewer × Evidence)) (t : Transition) (op_id : ℕ)
    → IsQuiet (consume judged t op_id)
unfolding consume
consume-IsQuiet none t op_id = search quiet_rules
consume-IsQuiet (some (r, e)) t op_id = consume_attempt-IsQuiet r t op_id

get_attempt-IsQuiet : (a : String) → IsQuiet (get_attempt a)
unfolding get_attempt
get_attempt-IsQuiet a = record { keeps = λ db x end h. ground arith }

pub attempt_reviewer-IsQuiet :
    (host : Host) (a : String) (p e : ℕ) → IsQuiet (attempt_reviewer host a p e)
unfolding attempt_reviewer
attempt_reviewer-IsQuiet host a p e = search (quiet_rules, get_attempt-IsQuiet) depth 40

pub choose_reviewer-IsQuiet :
    (host : Host) (a : Option String) (p e : ℕ) → IsQuiet (choose_reviewer host a p e)
unfolding choose_reviewer
choose_reviewer-IsQuiet host none p e = search quiet_rules
choose_reviewer-IsQuiet host (some a) p e = attempt_reviewer-IsQuiet host a p e

refuse_attempt-IsQuiet : (a : Option String) → IsQuiet (refuse_attempt a)
unfolding refuse_attempt
refuse_attempt-IsQuiet none = search quiet_rules
refuse_attempt-IsQuiet (some a) = search quiet_rules

pub judge-IsQuiet :
    (host : Host) (old : Row) (p : ℕ) (positive : Bool) (note attempt : Option String)
    → IsQuiet (judge host old p positive note attempt)
unfolding judge
judge-IsQuiet host old p true reason attempt = search (quiet_rules, choose_reviewer-IsQuiet)
judge-IsQuiet host old p false reason attempt = refuse_attempt-IsQuiet (given_attempt attempt)
