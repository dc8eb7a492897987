-- ===== src/Lib.antt =====
-- A model of the coordination kernel of agent-notes: the op log of work items, its fold, and the
-- native write path with its review gate.
--
-- The program keeps work items in Postgres. Every change is an op in `op_log`; the row of an item in
-- `work_items` is a cache, the fold of its ops. A handler runs in one transaction: it resolves the
-- project, seals the row (so that the fold reproduces it), checks the workflow and the review gate,
-- commits its ops, folds the entity into the cache, and reports events and change_log rows. Two
-- replicas exchange op chains, which `merge_entity` joins and `reconcile_entity` writes back.
--
-- Prelude: tests on numbers, lists, results, the integers of the rank, `str.strip`.
-- Lifecycle: src/agent_notes/core/lifecycle.py. `Status` and `Transition` are data types, an
-- unknown status is `other`; VALID_TRANSITIONS is `valid_transition`. Transitions holds its laws.
-- Ops: the ops and their payloads, whose keys are typed fields (absent, null or a value), and
-- Ops.Objects the JSON objects that the code merges and compares.
-- Kernel: the pure part of src/agent_notes/core/kernel.py: `_resolve_status_lattice`,
-- `_apply_op_to_state`, `fold_work_item_state` (its loops are `group_ops`, `fold_groups` and
-- `fold_each`), `merge_entity` and the loop of `reconcile_entity`. Lattice, Folding, Merging,
-- Convergence, Identity and Snapshots hold the proofs.
-- Store: the tables (schema/700_work_log_kernel.sql, 702, 820) as the record `Db`, a transaction
-- `Tx` over them, `commit_op`, `fold_work_item`, `emit_event` and `write_change`. Store.Rows is the
-- cache table; Store.Sound says when cache and log agree; Store.Steps has the rules by which a
-- handler is shown to keep that; Store.Chain applies them to `commit_op` and the fold.
-- Review: src/agent_notes/core/work_item/_independence.py; Review.Attempts the delegated reviewer
-- and the compare-and-set of _review_journal.py; Review.Gate and Review.Consumption the proofs.
-- WorkItem: _common.py and _seal.py of src/agent_notes/core/work_item, and in Create, Update,
-- Close, Verdict, Leases and Delete the handlers of _native.py; Reconcile the writing part of
-- `reconcile_entity`. The tail of a handler behind its checks is a definition of its own
-- (`write_close`, `write_claim`, ...). Soundness has a lemma for each piece; Approval and its children
-- are about the review gate, Leasing about the lease table, Authority about sequences of the handlers,
-- all but `delete_work_item`.
-- Verifier: src/agent_notes/core/verifier.py: the checks of an op and the loops over a log; Cache is
-- `verify_cache`, Gate `verify_gate_integrity`. Counts, Trails and Genuine hold proofs: Genuine
-- is about the ops that the handlers write, `delete_work_item` among them.
-- Messaging: src/agent_notes/core/messaging.py over agent_sessions and agent_messages
-- (schema/851_agent_messaging.sql, 853, 854) as the record `Mail`. Keys has the session keys, Table
-- the SQL statements on lists of rows, Sessions the presence and the loop guard, Sending `send_message`,
-- Replies `reply` and `answer_request`, Claiming `_match_sql`, `_claim` and what is built on them, Waking the
-- rule of who may be woken. Delivery, Answering, Replying and Woken hold proofs about single calls,
-- Invariant those about sequences of calls. Rows locked by another transaction are a parameter `held`.
-- Dispatcher: src/agent_notes/dispatcher/wake.py in Waker, over Messaging; Hosting, Releasing and
-- Guard hold its proofs. Service is the schedule of wakes of dispatcher/service.py, over Waker;
-- Scheduling holds its proofs. Jobs is the posting of a job's reply, of dispatcher/jobs.py.
-- Tests: concrete inputs.
--
-- What stands for code outside the repository is a field of `Host`: SHA-256 of an op and of a text,
-- the parsers of JSON and of UUIDs, the comparison of two float vectors, the clock, the identifier that Postgres
-- allocates, the actor, the producer block and the lineage lookup. Nothing is assumed of these, nor of
-- `Signing` (DSSE) and of the Paseo `Client`.
-- op_ids and digests are numbers, ordered as their hex text is. The lamport of an op is one more
-- than the last: the sequence's gaps after a rollback are not modelled. A raised exception rolls the
-- transaction back, so an error carries no database. A wake is several transactions, and keeps what
-- they have committed. Transactions run one at a time, as the row lock
-- and the lamport lock make them. Every loop of the source is structural recursion on the list that
-- it reads, so no fuel is needed.
--
-- A payload that is stored in a JSONB column is taken to come back as it went in, and so is an embedding
-- that pgvector stores as text. Between the transactions of one wake others lock rows (`held`), and during
-- its send they prune sessions (`prunes` of the `Client`); what else they may change there is not modelled.
--
-- Not modelled: the DSSE envelope (outside the op's hash), the retired `regista_work_item_id`, the
-- timestamps that triggers set, foreign keys (but `reply_to`), archived vocabularies, and Unicode whitespace in
-- `strip`. A ttl and an interval are natural numbers. Of the verifier: the DSSE check and the key files.
-- Of messaging: finding the caller's session in the environment, LISTEN and the waiting of
-- `await_message`, the read-only listings, the framing text of a message. The cross-project index, links,
-- checkouts, the trigger loop, the dispatcher's job handlers and threads, the memory engine, git, the command
-- line and the web face are not part of the model.
pub mod Prelude
pub mod Lifecycle
pub mod Ops
pub mod Kernel
pub mod Store
pub mod Review
pub mod WorkItem
pub mod Verifier
pub mod Messaging
pub mod Dispatcher
pub mod Tests
