-- ===== src/WorkItem/Soundness/Sealing.antt =====
-- About `seal_for_write` and the cache.
use agent_notes.Store.Chain.{commit_op_lem, fold-commit, commit_op-IsTouching, pure_lem}
use agent_notes.WorkItem.Soundness.{quiet_rules}
use agent_notes.Prelude.{
  ℕ, String, ◌≡◌, refl, ap, ◌∙◌, Bool, Option, none, some, List, [], ◌∷◌, is_empty, Bool-cases, inl,
  inr, arith, ok, ◌==◌, ◌+◌, All, ◌≢◌, seal_failed, Error,
}
use agent_notes.Ops.{Op, create, snapshot, work_item, absent}
use agent_notes.Kernel.{
  State, Folded, update_fields, fold_chain, fold_group, fold_op, settle, apply_payload,
  fold_work_item_state,
}
use agent_notes.Kernel.Folding.{fold_chain-snoc}
use mathlib.Core.Path.{subst}
use agent_notes.Store.{
  Host, entity_ops, fold_entity, commit_op, new_op, Db, reads, require, pure, ◌>>=◌, Tx,
}
use agent_notes.Store.Rows.{Row, state_of, find_row, find_entity, named}
use agent_notes.Store.Sound.{
  IsKeyed, IsPending, IsSound, IsPending-of_sound, cached, entity_ops-same,
}
use agent_notes.Store.Steps.{IsSafe, IsQuiet, ran, IsSound-along, pure-IsQuiet}
use agent_notes.WorkItem.{
  seal_for_write, sealed_fields, differing, stub, drift, verify_seal, write_seal, snapshot_payload,
  seal, seal_drifted, seal_found, anchor_op, create_op_id, needs_embedding, max_lamport,
}
use agent_notes.WorkItem.Soundness.Near.{IsNear, whole, bare, near_sealed, seal_outcome}

All-found :
    (P : Row → Type 0) (e : ℕ) (rows : List Row) (row : Row)
    → All P rows
    → find_entity e rows ≡ some row
    → P row
unfolding find_entity
All-found P e [] row a h = cc
All-found P e (r ∷ rows) row a h = elim (Bool-cases (r.entity_id == e)) [
  | inl t ↦ subst P (ground (arith, h, t)) a.0
  | inr f ↦ All-found P e rows row a.1 (rw f at h)
]

pub find_row-cached :
    (p : ℕ) (i : String) (rows : List Row) (row : Row)
    → IsKeyed rows
    → find_row p i rows ≡ some row
    → find_entity row.entity_id rows ≡ some row
unfolding find_row find_entity
find_row-cached p i [] row k h = cc
find_row-cached p i (r ∷ rows) row k h = elim (Bool-cases (named p i r)) [
  | inl t ↦ ground (arith, h, t)
  | inr f ↦
      let later : find_entity row.entity_id rows ≡ some row =
        find_row-cached p i rows row k.1 (rw f at h) in
      let other : row.entity_id ≢ r.entity_id =
        All-found (λ (x : Row). x.entity_id ≢ r.entity_id) row.entity_id rows row k.0 later in
      ground (arith, later, other)
]

-- A database that is sound but for the row's entity, whose chain is near to the row.
record IsAnchored (row : Row) (db : Db) : Type 0 where
  pending : IsPending row.entity_id db
  found : find_entity row.entity_id db.work_items ≡ some row
  near : IsNear row (fold_chain row.entity_id (entity_ops row.entity_id db.op_log)).state

fold_of_chain :
    (e : ℕ) (ops : List Op) (s : State)
    → fold_work_item_state e ops ≡ some s
    → (fold_chain e ops).state ≡ s
unfolding fold_work_item_state
fold_of_chain e [] s h = cc
fold_of_chain e (op ∷ ops) s h = ground (arith, h)

sound-IsAnchored :
    (p : ℕ) (i : String) (row : Row) (db : Db)
    → IsSound db
    → find_row p i db.work_items ≡ some row
    → IsAnchored row db
sound-IsAnchored p i row db h f =
    let found = find_row-cached p i db.work_items row h.keyed f in
    record {
      pending = IsPending-of_sound row.entity_id db h;
      found = found;
      near = whole (
          fold_of_chain row.entity_id (entity_ops row.entity_id db.op_log) (state_of row)
            (h.agrees row.entity_id ∙ ap cached found));
    }

near-entity : (row : Row) (s : State) → IsNear row s → s.entity_id ≡ row.entity_id
near-entity row s (whole e) = ap (λ (x : State). x.entity_id) e
near-entity row s (bare own bare_none) = own

-- A create op with no more than an identifier leaves no vector.
stub-IsNear :
    (row : Row) (acc : Folded) (op : Op)
    → op.op_type ≡ create
    → op.payload.fields.embedding ≡ absent
    → IsNear row acc.state
    → IsNear row (fold_group acc (op ∷ [])).state
unfolding fold_group fold_op settle apply_payload
stub-IsNear row acc op t f near =
    bare (ground (arith, t, near-entity row acc.state near)) (ground (arith, t, f))

anchor_op_lem :
    (host : Host) (row : Row) (db : Db) (op : Op) (end : Db)
    → IsAnchored row db
    → commit_op host (some row.entity_id) work_item create (stub row) [] db ≡ ok (op, end)
    → IsAnchored row end
unfolding new_op
anchor_op_lem host row db op end h returned =
    let e = row.entity_id in
    let wrote = new_op host (db.lamport + 1) (some e) work_item create (stub row) [] in
    let result = (commit_op_lem host e work_item create (stub row) [] db op end returned).1 in
    let (chain, last) =
      entity_ops-same e db.lamport db.op_log wrote refl (omega arith) h.pending.bounded in
    record {
      pending =
          (commit_op-IsTouching host e work_item create (stub row) []).keeps db op end h.pending
            returned;
      found = subst (λ (d : Db). find_entity e d.work_items ≡ some row) result h.found;
      near =
          subst (λ (d : Db). IsNear row (fold_chain e (entity_ops e d.op_log)).state) result
            (rw (chain, fold_chain-snoc e (entity_ops e db.op_log) wrote last)
              (stub-IsNear row (fold_chain e (entity_ops e db.op_log)) wrote refl refl h.near));
    }

pub verify_seal-IsQuiet :
    (host : Host) (row : Row) (diffs : List String) → IsQuiet (verify_seal host row diffs)
unfolding verify_seal
verify_seal-IsQuiet host row diffs = search quiet_rules

require_lem :
    (ds : List String) (e : Error) (db : Db) (a : Unit {0}) (end : Db)
    → require (is_empty ds) e db ≡ ok (a, end)
    → ds ≡ []
unfolding require
require_lem [] e db a end h = refl
require_lem (x ∷ ds) e db a end h = cc

-- The check behind the snapshot passes only where no column differs.
passed :
    (host : Host) (row : Row) (diffs : List String) (db : Db) (a : List String) (end : Db)
    → verify_seal host row diffs db ≡ ok (a, end)
    → drift host row db ≡ []
unfolding verify_seal reads ◌>>=◌
passed host row diffs db a end h =
    let r = ran (require (is_empty (drift host row db)) seal_failed) (λ _. pure diffs) db a end h in
    require_lem (drift host row db) seal_failed db r.value r.middle r.first

diffs_lem :
    (host : Host) (row : Row) (db : Db) (s : State)
    → fold_entity db.op_log row.entity_id ≡ some s
    → drift host row db ≡ []
    → differing host s row ≡ []
unfolding drift
diffs_lem host row db s f h = rw f at h

pub mended :
    (row : Row) (db : Db)
    → IsPending row.entity_id db
    → find_entity row.entity_id db.work_items ≡ some row
    → fold_entity db.op_log row.entity_id ≡ some (state_of row)
    → IsSound db
mended row db p found folds = record {
  bounded = p.bounded;
  keyed = p.keyed;
  agrees = λ e. elim (Bool-cases (e == row.entity_id)) [
    | inl same ↦ let here : e ≡ row.entity_id = ground (arith, same) in rw (here, found) folds
    | inr other ↦ p.agrees e (ground (arith, other))
  ];
}

write_seal_lem :
    (host : Host) (row : Row) (b : Bool) (diffs : List String) (anchor m : ℕ) (db : Db)
    (a : List String) (end : Db)
    → IsAnchored row db
    → write_seal host row b diffs anchor m db ≡ ok (a, end)
    → IsSound end
unfolding write_seal new_op
write_seal_lem host row b diffs anchor m db a end h returned =
    let e = row.entity_id in
    let payload = snapshot_payload row b m in
    let wrote = new_op host (db.lamport + 1) (some e) work_item snapshot payload (anchor ∷ []) in
    let checks = verify_seal host row diffs in
    let r =
      ran (commit_op host (some e) work_item snapshot payload (anchor ∷ [])) (λ _. checks) db a end
        returned in
    let result =
      (commit_op_lem host e work_item snapshot payload (anchor ∷ []) db r.value r.middle
        r.first).1 in
    let acc = fold_chain e (entity_ops e db.op_log) in
    let made = update_fields acc.state (sealed_fields row b) in
    let folds : fold_entity r.middle.op_log e ≡ some made =
      subst (λ (d : Db). fold_entity d.op_log e ≡ some made) result
        (fold-commit e db.lamport db.op_log wrote refl (omega arith) h.pending.bounded
          ∙ seal_outcome acc wrote row b refl refl refl) in
    let same : made ≡ state_of row =
      near_sealed host row acc.state b h.near
        (diffs_lem host row r.middle made folds (passed host row diffs r.middle a end r.rest)) in
    let pending =
      (commit_op-IsTouching host e work_item snapshot payload (anchor ∷ [])).keeps db r.value
        r.middle h.pending r.first in
    let found = subst (λ (d : Db). find_entity e d.work_items ≡ some row) result h.found in
    IsSound-along r.middle end ((verify_seal-IsQuiet host row diffs).keeps r.middle a end r.rest)
      (mended row r.middle pending found (folds ∙ ap some same))

seal_drifted_lem :
    (host : Host) (row : Row) (folded : Option State) (diffs : List String) (created : Option ℕ)
    (db : Db) (a : List String) (end : Db)
    → create_op_id row.entity_id db ≡ created
    → IsAnchored row db
    → seal_drifted host row folded diffs db ≡ ok (a, end)
    → IsSound end
unfolding seal_drifted anchor_op reads ◌>>=◌ pure
seal_drifted_lem host row folded diffs (some op_id) db a end c h returned =
    write_seal_lem host row (needs_embedding folded diffs) diffs op_id
      (max_lamport row.entity_id db) db a end h (rw c at returned)
seal_drifted_lem host row folded diffs none db a end c h returned =
    let commit = commit_op host (some row.entity_id) work_item create (stub row) [] in
    let sealing : ℕ → Tx (List String) = λ anchor d.
      write_seal host row (needs_embedding folded diffs) diffs anchor (max_lamport row.entity_id d)
        d in
    let r = ran (anchor_op host row none) sealing db a end (rw c at returned) in
    let first = ran commit (λ op. pure op.op_id) db r.value r.middle r.first in
    let still = (pure_lem first.value.op_id r.value first.middle r.middle first.rest).1 in
    write_seal_lem host row (needs_embedding folded diffs) diffs r.value
      (max_lamport row.entity_id r.middle) r.middle a end
      (subst (IsAnchored row) still
        (anchor_op_lem host row db first.value first.middle h first.first))
      r.rest

seal_lem :
    (host : Host) (row : Row) (db : Db) (a : List String) (end : Db)
    → IsSound db
    → IsAnchored row db
    → seal host row db ≡ ok (a, end)
    → IsSound end
unfolding seal reads ◌>>=◌
seal_lem host row db a end s h returned = elim (Bool-cases (is_empty (drift host row db))) [
  | inl t ↦ IsSound-along db end ((pure-IsQuiet []).keeps db a end (rw t at returned)) s
  | inr f ↦
      seal_drifted_lem host row (fold_entity db.op_log row.entity_id) (drift host row db)
        (create_op_id row.entity_id db) db a end refl h (rw f at returned)
]

seal_found_lem :
    (host : Host) (p : ℕ) (i : String) (found : Option Row) (db : Db) (a : Unit {0}) (end : Db)
    → IsSound db
    → find_row p i db.work_items ≡ found
    → seal_found host found db ≡ ok (a, end)
    → IsSound end
unfolding seal_found
seal_found_lem host p i none db a end s f returned =
    IsSound-along db end ((pure-IsQuiet tt).keeps db a end returned) s
seal_found_lem host p i (some row) db a end s f returned =
    let r = ran (seal host row) (λ _. pure tt) db a end returned in
    IsSound-along r.middle end ((pure-IsQuiet tt).keeps r.middle a end r.rest)
      (seal_lem host row db r.value r.middle s (sound-IsAnchored p i row db s f) r.first)

-- The seal keeps the cache equal to the fold of the log.
pub seal_for_write-IsSafe : (host : Host) (p : ℕ) (i : String) → IsSafe (seal_for_write host p i)
unfolding seal_for_write reads ◌>>=◌
seal_for_write-IsSafe host p i = record {
  keeps = λ db a end s h. seal_found_lem host p i (find_row p i db.work_items) db a end s refl h;
}
