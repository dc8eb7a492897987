-- ===== src/Tests/Verifier.antt =====
-- The verifier on the log of one item.
use agent_notes.Prelude.{◌≡◌, ◌+◌, ◌↔◌, refl, true, none, []}
use agent_notes.Lifecycle.{in_progress}
use agent_notes.Kernel.{fold_chain}
use agent_notes.Verifier.{Signing, verify_ops}
use agent_notes.Verifier.Gate.{reconstruct_status_transitions}
use agent_notes.Verifier.Counts.{AllClean, verify_ops_counts}
use agent_notes.Verifier.Trails.{reconstruct-status}
use agent_notes.Verifier.Genuine.{AllGenuine}
use agent_notes.Verifier.Genuine.Handlers.{unwritten, written, removed, LogRun-AllGenuine}
use agent_notes.WorkItem.Delete.{delete_work_item}
use agent_notes.Store.{Db}
use agent_notes.WorkItem.Authority.{file_work_item_step, claim_work_item_step}
use agent_notes.Tests.{after, worker, empty_db, filing, execute}
use agent_notes.Tests.Kernel.{here}
use agent_notes.Tests.WorkItem.{filed_db, claimed_db, filed_result, claimed_result}

abbrev unsigned_log : Signing
unsigned_log = record {
  Envelope = Unit;
  Key = Unit;
  envelope = λ op. none;
  key_ids = λ e. [];
  verifies = λ e k. true;
}

verify_ops_counts_example :
    ((verify_ops worker unsigned_log none true here).passed
        + (verify_ops worker unsigned_log none true here).failed
      ≡ 2)
    × ((verify_ops worker unsigned_log none true here).checked ≡ 2)
    × (((verify_ops worker unsigned_log none true here).failed ≡ 0)
        ↔ AllClean worker unsigned_log none true [] here)
verify_ops_counts_example = verify_ops_counts worker unsigned_log none true here

reconstruct-status_example :
    (reconstruct_status_transitions here).status ≡ (fold_chain 1 here).state.status
unfolding execute
reconstruct-status_example = reconstruct-status 1 here (tt, ((in_progress, refl), tt))

abbrev deleted_db : Db
deleted_db = after claimed_db (execute (delete_work_item worker 1 "WI-1") claimed_db)

LogRun-AllGenuine_example : AllGenuine worker deleted_db.op_log
unfolding execute
LogRun-AllGenuine_example = LogRun-AllGenuine worker empty_db deleted_db tt (
    removed deleted_db 1 "WI-1" true
      (written claimed_db
        (written filed_db unwritten (file_work_item_step filing filed_result refl))
        (claim_work_item_step 1 "WI-1" 60 claimed_result refl))
      refl)
