-- ===== src/WorkItem/Authority.antt =====
-- About the cache and runs of the handlers of core/work_item/_native.py and core/kernel.py.
use agent_notes.Prelude.{ℕ, String, Option, List, ◌≡◌, ok}
use agent_notes.Ops.{Op}
use agent_notes.Store.{Db, Host}
use agent_notes.Store.Rows.{Row}
use agent_notes.Store.Sound.{IsSound}
use agent_notes.WorkItem.Create.{Filing, file_work_item}
use agent_notes.WorkItem.Update.{Edit, update_work_item}
use agent_notes.WorkItem.Close.{close_work_item, close_work_item_force, attest_gate_waiver}
use agent_notes.WorkItem.Verdict.{Verdict, review_transition}
use agent_notes.WorkItem.Leases.{claim_work_item, release_work_item}
use agent_notes.Store.{Lease}
use agent_notes.WorkItem.Soundness.Heartbeat.{heartbeat_work_item-IsSound}
use agent_notes.WorkItem.Leases.{heartbeat_work_item}
use agent_notes.WorkItem.Reconcile.{reconcile_entity}
use agent_notes.WorkItem.Soundness.Handlers.{
  file_work_item-IsSafe, update_work_item-IsSafe, close_work_item-IsSafe,
  close_work_item_force-IsSafe, attest_gate_waiver-IsSafe, review_transition-IsSafe,
  claim_work_item-IsSafe, release_work_item-IsSafe, reconcile_entity-IsSafe,
}

-- From a sound database, when `file_work_item` returns, the cache is still the fold of the log.
pub file_work_item-IsSound :
    (host : Host) (f : Filing) (db : Db) (result : Row) (end : Db)
    → IsSound db
    → file_work_item host f db ≡ ok (result, end)
    → IsSound end
file_work_item-IsSound host f db result end = (file_work_item-IsSafe host f).keeps db result end

-- From a sound database, when `update_work_item` returns, the cache is still the fold of the log.
pub update_work_item-IsSound :
    (host : Host) (p : ℕ) (i : String) (edit : Edit) (db : Db) (result : Row) (end : Db)
    → IsSound db
    → update_work_item host p i edit db ≡ ok (result, end)
    → IsSound end
update_work_item-IsSound host p i edit db result end =
    (update_work_item-IsSafe host p i edit).keeps db result end

-- From a sound database, when `close_work_item` returns, the cache is still the fold of the log.
pub close_work_item-IsSound :
    (host : Host) (p : ℕ) (i : String) (db : Db) (result : Row) (end : Db)
    → IsSound db
    → close_work_item host p i db ≡ ok (result, end)
    → IsSound end
close_work_item-IsSound host p i db result end =
    (close_work_item-IsSafe host p i).keeps db result end

-- From a sound database, when `close_work_item_force` returns, the cache is still the fold of the log.
pub close_work_item_force-IsSound :
    (host : Host) (p : ℕ) (i : String) (db : Db) (result : Row) (end : Db)
    → IsSound db
    → close_work_item_force host p i db ≡ ok (result, end)
    → IsSound end
close_work_item_force-IsSound host p i db result end =
    (close_work_item_force-IsSafe host p i).keeps db result end

-- From a sound database, when `attest_gate_waiver` returns, the cache is still the fold of the log.
pub attest_gate_waiver-IsSound :
    (host : Host) (p : ℕ) (i reason : String) (db : Db) (result : Row) (end : Db)
    → IsSound db
    → attest_gate_waiver host p i reason db ≡ ok (result, end)
    → IsSound end
attest_gate_waiver-IsSound host p i reason db result end =
    (attest_gate_waiver-IsSafe host p i reason).keeps db result end

-- From a sound database, when `review_transition` returns, the cache is still the fold of the log.
pub review_transition-IsSound :
    (host : Host) (p : ℕ) (i : String) (v : Verdict) (text : String) (ack attempt : Option String)
    (db : Db) (result : Row) (end : Db)
    → IsSound db
    → review_transition host p i v text ack attempt db ≡ ok (result, end)
    → IsSound end
review_transition-IsSound host p i v text ack attempt db result end =
    (review_transition-IsSafe host p i v text ack attempt).keeps db result end

-- From a sound database, when `claim_work_item` returns, the cache is still the fold of the log.
pub claim_work_item-IsSound :
    (host : Host) (p : ℕ) (i : String) (ttl : ℕ) (db : Db) (result : Row) (end : Db)
    → IsSound db
    → claim_work_item host p i ttl db ≡ ok (result, end)
    → IsSound end
claim_work_item-IsSound host p i ttl db result end =
    (claim_work_item-IsSafe host p i ttl).keeps db result end

-- From a sound database, when `release_work_item` returns, the cache is still the fold of the log.
pub release_work_item-IsSound :
    (host : Host) (p : ℕ) (i : String) (db : Db) (result : Row) (end : Db)
    → IsSound db
    → release_work_item host p i db ≡ ok (result, end)
    → IsSound end
release_work_item-IsSound host p i db result end =
    (release_work_item-IsSafe host p i).keeps db result end

-- From a sound database, when `reconcile_entity` returns, the cache is still the fold of the log.
pub reconcile_entity-IsSound :
    (host : Host) (e : ℕ) (ops : List Op) (db : Db) (result : Option Row) (end : Db)
    → IsSound db
    → reconcile_entity host e ops db ≡ ok (result, end)
    → IsSound end
reconcile_entity-IsSound host e ops db result end =
    (reconcile_entity-IsSafe host e ops).keeps db result end

-- One call that returned, of any of the handlers that fold the log, and any number of them.
pub data Step (host : Host) (db end : Db) : Type 0 where
  file_work_item_step :
      (f : Filing) (result : Row) → file_work_item host f db ≡ ok (result, end) → Step host db end
  update_work_item_step :
      (p : ℕ) (i : String) (edit : Edit) (result : Row)
      → update_work_item host p i edit db ≡ ok (result, end)
      → Step host db end
  close_work_item_step :
      (p : ℕ) (i : String) (result : Row)
      → close_work_item host p i db ≡ ok (result, end)
      → Step host db end
  close_work_item_force_step :
      (p : ℕ) (i : String) (result : Row)
      → close_work_item_force host p i db ≡ ok (result, end)
      → Step host db end
  attest_gate_waiver_step :
      (p : ℕ) (i reason : String) (result : Row)
      → attest_gate_waiver host p i reason db ≡ ok (result, end)
      → Step host db end
  review_transition_step :
      (p : ℕ) (i : String) (v : Verdict) (text : String) (ack attempt : Option String)
      (result : Row)
      → review_transition host p i v text ack attempt db ≡ ok (result, end)
      → Step host db end
  claim_work_item_step :
      (p : ℕ) (i : String) (ttl : ℕ) (result : Row)
      → claim_work_item host p i ttl db ≡ ok (result, end)
      → Step host db end
  release_work_item_step :
      (p : ℕ) (i : String) (result : Row)
      → release_work_item host p i db ≡ ok (result, end)
      → Step host db end
  reconcile_entity_step :
      (e : ℕ) (ops : List Op) (result : Option Row)
      → reconcile_entity host e ops db ≡ ok (result, end)
      → Step host db end
  heartbeat_work_item_step :
      (p : ℕ) (i : String) (ttl : ℕ) (result : Lease)
      → heartbeat_work_item host p i ttl db ≡ ok (result, end)
      → Step host db end

pub data Run (host : Host) (db : Db) : Db → Type 0 where
  idle : Run host db db
  later : {middle : Db} (end : Db) → Run host db middle → Step host middle end → Run host db end

Step-IsSound : (host : Host) (db end : Db) → IsSound db → Step host db end → IsSound end
Step-IsSound host db end h (file_work_item_step f result q) =
    file_work_item-IsSound host f db result end h q
Step-IsSound host db end h (update_work_item_step p i edit result q) =
    update_work_item-IsSound host p i edit db result end h q
Step-IsSound host db end h (close_work_item_step p i result q) =
    close_work_item-IsSound host p i db result end h q
Step-IsSound host db end h (close_work_item_force_step p i result q) =
    close_work_item_force-IsSound host p i db result end h q
Step-IsSound host db end h (attest_gate_waiver_step p i reason result q) =
    attest_gate_waiver-IsSound host p i reason db result end h q
Step-IsSound host db end h (review_transition_step p i v text ack attempt result q) =
    review_transition-IsSound host p i v text ack attempt db result end h q
Step-IsSound host db end h (claim_work_item_step p i ttl result q) =
    claim_work_item-IsSound host p i ttl db result end h q
Step-IsSound host db end h (release_work_item_step p i result q) =
    release_work_item-IsSound host p i db result end h q
Step-IsSound host db end h (reconcile_entity_step e ops result q) =
    reconcile_entity-IsSound host e ops db result end h q
Step-IsSound host db end h (heartbeat_work_item_step p i ttl result q) =
    heartbeat_work_item-IsSound host p i ttl db result end h q

-- Whatever sequence of calls ran and returned from a sound database (files, edits, closes, forced
-- closes, waivers, verdicts, claims, releases, heartbeats and merges), the cache is the fold of the log.
pub Run-IsSound : (host : Host) (db end : Db) → IsSound db → Run host db end → IsSound end
Run-IsSound host db end h idle = h
Run-IsSound host db _ h (later {middle} end before step) =
    Step-IsSound host middle end (Run-IsSound host db middle h before) step
