-- ===== src/WorkItem/Leases.antt =====
-- The lease table: `claim_work_item`, `release_work_item` and `heartbeat_work_item` of
-- core/work_item/_native.py (schema/702_work_log_leases.sql).
use agent_notes.Prelude.{
  ℕ, String, ◌+◌, Bool, false, not, Option, none, some, List, [], ◌∷◌, ◌==◌, ltb, if◌then◌else◌, ok,
  not_claimable, already_claimed, not_claimed,
}
use agent_notes.Lifecycle.{Status, opened, claimed, is_open}
use agent_notes.Ops.Objects.{str, num, Dict}
use agent_notes.Ops.{
  claim, release, heartbeat, set_status, work_item, is, no_fields, Payload, no_payload, authored,
  Op,
}
use agent_notes.Store.Rows.{Row}
use agent_notes.Store.{
  Lease, Host, Tx, ◌>>=◌, ◌>>◌, pure, reads, require, commit_op, refold, write_change, emit_event,
  claim_granted, claim_released, item_heartbeat, found_or,
}
use agent_notes.Store.{ChangeType}
use agent_notes.WorkItem.{resolve_workspace_for_project, load_work_item_row, seal_for_write}
use agent_notes.WorkItem.Close.{delete_lease}

unfoldable pub find_lease : ℕ → List Lease → Option Lease
find_lease e [] = none
find_lease e (l ∷ ls) = if l.entity_id == e then some l else find_lease e ls

-- `expires_at > now()`
abbrev pub is_live : ℕ → Option Lease → Bool
is_live now none = false
is_live now (some l) = ltb now l.expires_at

-- INSERT INTO work_item_leases ... ON CONFLICT (entity_id) DO UPDATE
unfoldable pub put_lease : ℕ → String → ℕ → ℕ → List Lease → List Lease
put_lease e actor now expires [] =
    record {
      entity_id = e;
      actor_id = actor;
      acquired_at = now;
      expires_at = expires;
      heartbeat_count = 0;
    }
    ∷ []
put_lease e actor now expires (l ∷ ls) =
    if l.entity_id == e
    then record {
      entity_id = e;
      actor_id = actor;
      acquired_at = now;
      expires_at = expires;
      heartbeat_count = l.heartbeat_count + 1;
    }
      ∷ ls
    else l ∷ put_lease e actor now expires ls

-- UPDATE work_item_leases SET expires_at, heartbeat_count WHERE entity_id
unfoldable pub extend_lease : ℕ → ℕ → List Lease → List Lease
extend_lease e expires [] = []
extend_lease e expires (l ∷ ls) =
    if l.entity_id == e
    then record l { expires_at = expires; heartbeat_count = l.heartbeat_count + 1 } ∷ ls
    else l ∷ extend_lease e expires ls

unfoldable pub grant_lease : Host → ℕ → ℕ → Tx (Unit {0})
unfolding put_lease
grant_lease host e ttl db = ok (
  tt,
  record db {
    work_item_leases = put_lease e host.actor_id host.now (host.now + ttl) db.work_item_leases;
  },
)

-- The UPDATE and its RETURNING row.
unfoldable pub renew_lease : Host → ℕ → ℕ → Tx (Option Lease)
unfolding extend_lease find_lease
renew_lease host e ttl db =
    let leases = extend_lease e (host.now + ttl) db.work_item_leases in
    ok (find_lease e leases, record db { work_item_leases = leases })

abbrev lease_extra : Host → ℕ → Dict
lease_extra host ttl = ("actor_id", str host.actor_id) ∷ ("ttl_seconds", num ttl) ∷ []

abbrev pub claim_payload : Host → ℕ → Payload
claim_payload host ttl =
    authored
      (record no_payload { extra = ("claimed_at", str host.timestamp) ∷ lease_extra host ttl })
      host.producer

-- The claim of a free row: the op, the lease, and the fold.
unfoldable pub write_claim : Host → ℕ → ℕ → String → ℕ → Row → Tx Row
unfolding grant_lease
write_claim host workspace_id project_id identifier ttl_seconds old = do
  op ←
      commit_op host (some old.entity_id) work_item claim (claim_payload host ttl_seconds)
        (old.entity_id ∷ [])
  grant_lease host old.entity_id ttl_seconds
  emit_event op old.entity_id identifier claim_granted
  folded ← refold old.entity_id
  write_change workspace_id project_id identifier (ChangeType.claimed host.actor_id ttl_seconds)
      (some host.actor_id)
  pure folded

unfoldable pub claim_work_item : Host → ℕ → String → ℕ → Tx Row
unfolding is_open find_lease write_claim
claim_work_item host project_id identifier ttl_seconds = do
  workspace_id ← resolve_workspace_for_project project_id
  seal_for_write host project_id identifier
  old ← load_work_item_row project_id identifier
  require (is_open old.status) not_claimable
  lease ← reads (λ db. find_lease old.entity_id db.work_item_leases)
  require (not (is_live host.now lease)) already_claimed
  write_claim host workspace_id project_id identifier ttl_seconds old

abbrev release_payload : Host → Payload
release_payload host =
    authored
      (record no_payload {
        extra = ("actor_id", str host.actor_id) ∷ ("released_at", str host.timestamp) ∷ [];
      })
      host.producer

abbrev reopen_payload : Host → Payload
reopen_payload host =
    authored (record no_payload { fields = record no_fields { status = is opened } }) host.producer

-- Only a legacy `claimed` row goes back to open.
unfoldable pub reopen_claimed : Host → Row → Op → Status → Tx (Unit {0})
reopen_claimed host old op claimed =
    commit_op host (some old.entity_id) work_item set_status (reopen_payload host) (op.op_id ∷ [])
    >> pure tt
reopen_claimed host old op _ = pure tt

-- The release of a row: the op, the end of its lease, and the fold.
unfoldable pub write_release : Host → ℕ → ℕ → String → Row → Tx Row
unfolding delete_lease reopen_claimed
write_release host workspace_id project_id identifier old = do
  op ←
      commit_op host (some old.entity_id) work_item release (release_payload host)
        (old.entity_id ∷ [])
  delete_lease old.entity_id
  reopen_claimed host old op old.status
  emit_event op old.entity_id identifier claim_released
  folded ← refold old.entity_id
  write_change workspace_id project_id identifier (ChangeType.released host.actor_id)
      (some host.actor_id)
  pure folded

unfoldable pub release_work_item : Host → ℕ → String → Tx Row
unfolding write_release
release_work_item host project_id identifier = do
  workspace_id ← resolve_workspace_for_project project_id
  seal_for_write host project_id identifier
  old ← load_work_item_row project_id identifier
  write_release host workspace_id project_id identifier old

unfoldable pub report_heartbeat : Host → ℕ → ℕ → String → ℕ → Row → Lease → Op → Tx Lease
report_heartbeat host workspace_id project_id identifier ttl_seconds old row op = do
  emit_event op old.entity_id identifier item_heartbeat
  write_change workspace_id project_id identifier (ChangeType.heartbeat host.actor_id ttl_seconds)
      (some host.actor_id)
  pure row

-- The heartbeat of a held lease: the op and the rows that report it.
unfoldable pub write_heartbeat : Host → ℕ → ℕ → String → ℕ → Row → Lease → Tx Lease
unfolding report_heartbeat
write_heartbeat host workspace_id project_id identifier ttl_seconds old row = do
  op ←
      commit_op host (some old.entity_id) work_item heartbeat
        (record no_payload { extra = lease_extra host ttl_seconds }) (old.entity_id ∷ [])
  report_heartbeat host workspace_id project_id identifier ttl_seconds old row op

unfoldable pub heartbeat_work_item : Host → ℕ → String → ℕ → Tx Lease
unfolding renew_lease write_heartbeat
heartbeat_work_item host project_id identifier ttl_seconds = do
  workspace_id ← resolve_workspace_for_project project_id
  old ← load_work_item_row project_id identifier
  renewed ← renew_lease host old.entity_id ttl_seconds
  row ← found_or not_claimed renewed
  write_heartbeat host workspace_id project_id identifier ttl_seconds old row
