-- ===== src/WorkItem/Soundness/Heartbeat.antt =====
-- About the op that `heartbeat_work_item` writes.
use agent_notes.Prelude.{
  ℕ, String, ◌≡◌, refl, ap, ◌∙◌, some, List, [], ◌∷◌, arith, ok, ◌+◌, not_claimed,
}
use mathlib.Core.Path.{subst}
use agent_notes.Ops.{Op, Payload, heartbeat, work_item}
use agent_notes.Kernel.{State, outcome, fold_chain, fold_work_item_state}
use agent_notes.Kernel.Snapshots.{group_heartbeat}
use agent_notes.Store.{
  Db, Host, Lease, commit_op, new_op, entity_ops, fold_entity, reads, found_or, ◌>>=◌,
}
use agent_notes.Store.Rows.{Row, state_of, find_row, find_entity}
use agent_notes.Store.Sound.{IsSound, IsPending-of_sound, cached}
use agent_notes.Store.Steps.{ran, IsQuiet, SameCore-trans, IsSound-along, found_or-IsQuiet}
use agent_notes.Store.Chain.{commit_op_lem, fold-commit, commit_op-IsTouching}
use agent_notes.WorkItem.{load_work_item_row}
use agent_notes.WorkItem.Leases.{heartbeat_work_item, write_heartbeat, report_heartbeat}
use agent_notes.WorkItem.Soundness.{
  quiet_rules, resolve_workspace-IsQuiet, load_work_item_row-IsQuiet, renew_lease-IsQuiet,
}
use agent_notes.WorkItem.Soundness.Sealing.{mended, find_row-cached}

outcome_of_fold :
    (e : ℕ) (ops : List Op) (s : State)
    → fold_work_item_state e ops ≡ some s
    → outcome (fold_chain e ops) ≡ some s
unfolding fold_work_item_state
outcome_of_fold e [] s h = cc
outcome_of_fold e (op ∷ ops) s h = h

commit-heartbeat :
    (host : Host) (row : Row) (p : Payload) (ps : List ℕ) (db : Db) (op : Op) (end : Db)
    → IsSound db
    → find_entity row.entity_id db.work_items ≡ some row
    → commit_op host (some row.entity_id) work_item heartbeat p ps db ≡ ok (op, end)
    → IsSound end
unfolding new_op
commit-heartbeat host row p ps db op end s found returned =
    let e = row.entity_id in
    let wrote = new_op host (db.lamport + 1) (some e) work_item heartbeat p ps in
    let result = (commit_op_lem host e work_item heartbeat p ps db op end returned).1 in
    let acc = fold_chain e (entity_ops e db.op_log) in
    let before : fold_entity db.op_log e ≡ some (state_of row) = s.agrees e ∙ ap cached found in
    let folds : fold_entity end.op_log e ≡ some (state_of row) =
      subst (λ (d : Db). fold_entity d.op_log e ≡ some (state_of row)) result
        (fold-commit e db.lamport db.op_log wrote refl (omega arith) s.bounded
          ∙ ap outcome (group_heartbeat acc wrote refl)
          ∙ outcome_of_fold e (entity_ops e db.op_log) (state_of row) before) in
    mended row end
      ((commit_op-IsTouching host e work_item heartbeat p ps).keeps db op end
        (IsPending-of_sound e db s) returned)
      (subst (λ (d : Db). find_entity e d.work_items ≡ some row) result found) folds

load_lem :
    (p : ℕ) (i : String) (db : Db) (row : Row) (end : Db)
    → load_work_item_row p i db ≡ ok (row, end)
    → find_row p i db.work_items ≡ some row
unfolding load_work_item_row reads found_or ◌>>=◌
load_lem p i db row end h = ground arith

report_heartbeat-IsQuiet :
    (host : Host) (w p : ℕ) (i : String) (ttl : ℕ) (old : Row) (lease : Lease) (op : Op)
    → IsQuiet (report_heartbeat host w p i ttl old lease op)
unfolding report_heartbeat
report_heartbeat-IsQuiet host w p i ttl old lease op = search quiet_rules

write_heartbeat-IsSound :
    (host : Host) (w p : ℕ) (i : String) (ttl : ℕ) (old : Row) (lease : Lease) (db : Db)
    (result : Lease) (end : Db)
    → IsSound db
    → find_row p i db.work_items ≡ some old
    → write_heartbeat host w p i ttl old lease db ≡ ok (result, end)
    → IsSound end
unfolding write_heartbeat
write_heartbeat-IsSound host w p i ttl old lease db result end s f returned =
    let r = ran _ _ db result end returned in
    let found = find_row-cached p i db.work_items old s.keyed f in
    let quiet = report_heartbeat-IsQuiet host w p i ttl old lease r.value in
    IsSound-along r.middle end (quiet.keeps r.middle result end r.rest)
      (commit-heartbeat host old _ _ db r.value r.middle s found r.first)

-- From a sound database, when `heartbeat_work_item` returns, the cache is still the fold of the log.
pub heartbeat_work_item-IsSound :
    (host : Host) (p : ℕ) (i : String) (ttl : ℕ) (db : Db) (result : Lease) (end : Db)
    → IsSound db
    → heartbeat_work_item host p i ttl db ≡ ok (result, end)
    → IsSound end
unfolding heartbeat_work_item
heartbeat_work_item-IsSound host p i ttl db result end s returned =
    let r = ran _ _ db result end returned in
    let q = ran _ _ r.middle result end r.rest in
    let t = ran _ _ q.middle result end q.rest in
    let u = ran _ _ t.middle result end t.rest in
    let to_lease =
      SameCore-trans q.middle t.middle u.middle
        ((renew_lease-IsQuiet host q.value.entity_id ttl).keeps q.middle t.value t.middle t.first)
        ((found_or-IsQuiet not_claimed t.value).keeps t.middle u.value u.middle u.first) in
    let loaded = (load_work_item_row-IsQuiet p i).keeps r.middle q.value q.middle q.first in
    let opened = (resolve_workspace-IsQuiet p).keeps db r.value r.middle r.first in
    let same = SameCore-trans r.middle q.middle u.middle loaded to_lease in
    write_heartbeat-IsSound host r.value p i ttl q.value u.value u.middle result end
      (IsSound-along db u.middle (SameCore-trans db r.middle u.middle opened same) s)
      (subst (λ (rows : List Row). find_row p i rows ≡ some q.value) same.work_items
        (load_lem p i r.middle q.value q.middle q.first))
      u.rest
