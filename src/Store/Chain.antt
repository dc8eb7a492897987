-- ===== src/Store/Chain.antt =====
-- About `commit_op` and `refold`, and the chain of one entity.
use agent_notes.Prelude.{
  ◌==◌, ◌<◌, ◌++◌, ◌∷◌, [], ℕ, ◌≡◌, ◌+◌, refl, sym, ap, ◌∙◌, Option, none, some, List, arith, ok,
  Error, Bool-cases, All-append, ◌<◌, fold_failed, inl, inr, All, ◌≤◌,
}
use mathlib.Core.Path.{subst}
use agent_notes.Ops.{EntityType, OpType, Payload, Op}
use agent_notes.Kernel.{State, outcome, fold_group, fold_chain, fold_work_item_state}
use agent_notes.Kernel.Snapshots.{fold-snoc}
use agent_notes.Kernel.Identity.{fold-entity}
use agent_notes.Store.Rows.{Row, state_of, row_of, upsert}
use agent_notes.Store.Sound.{
  IsSound, IsSoundAt, IsPending, IsPendingAt, entity_ops-other, find_entity-upsert, upsert-IsKeyed,
  ==_refl, All-weaken, entity_ops-same,
}
use agent_notes.Store.Steps.{IsTouching, IsMending, ran}
use agent_notes.Store.{
  Db, Host, pure, new_op, insert_log, commit_op, entity_ops, fold_entity, write_row, cache_state,
  fold_work_item, refold, found_or, reads,
}

-- The log with one more op of the entity.
IsPending-append :
    (e l : ℕ) (log : List Op) (rows : List Row) (op : Op)
    → op.entity_id ≡ e
    → l < op.lamport
    → IsPendingAt e l log rows
    → IsPendingAt e op.lamport (log ++ op ∷ []) rows
IsPending-append e l log rows op own lt h = record {
  bounded =
      All-append _ log (op ∷ []) (All-weaken l op.lamport log (omega arith) h.bounded)
        (omega arith, tt);
  keyed = h.keyed;
  agrees = λ x differ.
      rw (entity_ops-other x log op (λ same. differ (sym same ∙ own))) (h.agrees x differ);
}

abbrev appended : Db → Op → Db
appended db op = record db { lamport = op.lamport; op_log = db.op_log ++ op ∷ [] }

pub insert_log_lem :
    (op : Op) (db : Db) (a : Op) (end : Db)
    → insert_log op db ≡ ok (a, end)
    → (a ≡ op) × (appended db op ≡ end)
unfolding insert_log
insert_log_lem op db a end h = ground arith

new_op-entity :
    (host : Host) (l e : ℕ) (t : EntityType) (o : OpType) (p : Payload) (ps : List ℕ)
    → ((new_op host l (some e) t o p ps).entity_id ≡ e)
      × ((new_op host l (some e) t o p ps).lamport ≡ l)
unfolding new_op
new_op-entity host l e t o p ps = (refl, refl)

pub commit_op-IsTouching :
    (host : Host) (e : ℕ) (t : EntityType) (o : OpType) (p : Payload) (ps : List ℕ)
    → IsTouching e (commit_op host (some e) t o p ps)
unfolding commit_op
commit_op-IsTouching host e t o p ps = record {
  keeps = λ db a end s h.
      let op = new_op host (db.lamport + 1) (some e) t o p ps in
      let (own, l) = new_op-entity host (db.lamport + 1) e t o p ps in
      subst (IsPending e) (insert_log_lem op db a end h).1
        (IsPending-append e db.lamport db.op_log db.work_items op own (omega arith) s);
}

-- What the fold returns is the state of its own entity.
row_of-state_of : (s : State) (r : Row) → row_of s ≡ some r → state_of r ≡ s
unfolding row_of
row_of-state_of s r h = ground arith

record Written (row : Row) (a : Row) (db end : Db) : Type 0 where
  same : a ≡ row
  result : record db { work_items = upsert row db.work_items } ≡ end

write_row_lem :
    (row a : Row) (db end : Db) → write_row (some row) db ≡ ok (a, end) → Written row a db end
unfolding write_row
write_row_lem row a db end h = ground arith

row_of-entity : (s : State) (r : Row) → row_of s ≡ some r → r.entity_id ≡ s.entity_id
unfolding row_of
row_of-entity s r h = ground arith

-- Writing the row of the entity's fold makes the database sound.
upsert-IsSound :
    (e l : ℕ) (log : List Op) (rows : List Row) (s : State) (row : Row)
    → IsPendingAt e l log rows
    → fold_entity log e ≡ some s
    → row_of s ≡ some row
    → IsSoundAt l log (upsert row rows)
upsert-IsSound e l log rows s row p f r = record {
  bounded = p.bounded;
  keyed = upsert-IsKeyed row rows p.keyed;
  agrees = λ x. rw (find_entity-upsert x row rows) (elim (Bool-cases (row.entity_id == x)) [
    | inl same ↦
        let here : x ≡ e = sym (ground arith) ∙ own in
        rw (same, here) (f ∙ ap some (sym (row_of-state_of s row r)))
    | inr other ↦ rw other (p.agrees x (λ here. cc (==_refl x, own, here)))
  ]);
}
  where
    own : row.entity_id ≡ e
    own = row_of-entity s row r ∙ fold-entity e (entity_ops e log) s f

-- The fold's row is in the cache when `refold` returns it.
pub record Refolded (e : ℕ) (row : Row) (db end : Db) : Type 0 where
  pub folds : fold_entity db.op_log e ≡ some (state_of row)
  pub result : record db { work_items = upsert row db.work_items } ≡ end
  pub own : row.entity_id ≡ e
  pub storable : (s : State) × (fold_entity db.op_log e ≡ some s) × (row_of s ≡ some row)

write_row-none : (db : Db) (row : Row) (end : Db) → ¬ (write_row none db ≡ ok (row, end))
unfolding write_row
write_row-none db row end h = cc

written_state :
    (s : State) (db : Db) (row : Row) (end : Db) (made : Option Row)
    → row_of s ≡ made
    → write_row made db ≡ ok (row, end)
    → (row_of s ≡ some row) × (record db { work_items = upsert row db.work_items } ≡ end)
written_state s db row end none r h = absurd (write_row-none db row end h)
written_state s db row end (some x) r h =
    let w = write_row_lem x row db end h in (r ∙ ap some (sym w.same), rw w.same w.result)

pub pure_lem : {A : Type 0} (x a : A) (db end : Db) → pure x db ≡ ok (a, end) → (x ≡ a) × (db ≡ end)
unfolding pure
pure_lem x a db end h = ground arith

cache_state_lem :
    (state : Option State) (db : Db) (row : Row) (end : Db)
    → cache_state state db ≡ ok (some row, end)
    → (s : State) × (state ≡ some s)
      × (row_of s ≡ some row)
      × (record db { work_items = upsert row db.work_items } ≡ end)
unfolding cache_state
cache_state_lem none db row end h = cc ((pure_lem {A = Option Row} none (some row) db end h).0)
cache_state_lem (some s) db row end h =
    let r = ran (write_row (row_of s)) (λ x. pure (some x)) db (some row) end h in
    let (same, done) = pure_lem (some r.value) (some row) r.middle end r.rest in
    let (made, result) = written_state s db r.value r.middle (row_of s) refl r.first in
    (s, refl, made ∙ same, ground (arith, result, done, same))

found_or_lem :
    {A : Type 0} (e : Error) (o : Option A) (a : A) (db end : Db)
    → found_or e o db ≡ ok (a, end)
    → (o ≡ some a) × (db ≡ end)
unfolding found_or
found_or_lem e none a db end h = cc
found_or_lem e (some x) a db end h = ground arith

reads_lem :
    {A : Type 0} (f : Db → A) (a : A) (db end : Db)
    → reads f db ≡ ok (a, end)
    → (f db ≡ a) × (db ≡ end)
unfolding reads
reads_lem f a db end h = ground arith

fold_work_item_lem :
    (e : ℕ) (db : Db) (row : Row) (end : Db)
    → fold_work_item e db ≡ ok (some row, end)
    → Refolded e row db end
unfolding fold_work_item
fold_work_item_lem e db row end h =
    let r = ran (reads (λ d. fold_entity d.op_log e)) cache_state db (some row) end h in
    let (read, still) = reads_lem (λ d. fold_entity d.op_log e) r.value db r.middle r.first in
    let (s, found, made, result) = cache_state_lem r.value r.middle row end r.rest in
    let f : fold_entity db.op_log e ≡ some s = read ∙ found in
    record {
      folds = f ∙ ap some (sym (row_of-state_of s row made));
      result = rw (← still) at result;
      own = row_of-entity s row made ∙ fold-entity e (entity_ops e db.op_log) s f;
      storable = (s, f, made);
    }

pub refold_lem :
    (e : ℕ) (db : Db) (row : Row) (end : Db) → refold e db ≡ ok (row, end) → Refolded e row db end
unfolding refold
refold_lem e db row end h =
    let r = ran (fold_work_item e) (λ folded. found_or fold_failed folded) db row end h in
    let (found, still) = found_or_lem fold_failed r.value row r.middle end r.rest in
    fold_work_item_lem e db row end (rw (← found, ← still) r.first)

pub refold-IsMending : (e : ℕ) → IsMending e (refold e)
refold-IsMending e = record {
  mends = λ db row end p h.
      let r = refold_lem e db row end h in
      let (s, f, made) = r.storable in
      subst IsSound r.result (upsert-IsSound e db.lamport db.op_log db.work_items s row p f made);
}

pub commit_op_lem :
    (host : Host) (e : ℕ) (t : EntityType) (o : OpType) (p : Payload) (ps : List ℕ) (db : Db)
    (a : Op) (end : Db)
    → commit_op host (some e) t o p ps db ≡ ok (a, end)
    → (a ≡ new_op host (db.lamport + 1) (some e) t o p ps)
      × (appended db (new_op host (db.lamport + 1) (some e) t o p ps) ≡ end)
unfolding commit_op
commit_op_lem host e t o p ps db a end h =
    insert_log_lem (new_op host (db.lamport + 1) (some e) t o p ps) db a end h

-- The fold of the entity after the commit is one step on from the fold of its chain.
pub fold-commit :
    (e l : ℕ) (log : List Op) (op : Op)
    → op.entity_id ≡ e
    → l < op.lamport
    → All (λ (o : Op). o.lamport ≤ l) log
    → fold_entity (log ++ op ∷ []) e
      ≡ outcome (fold_group (fold_chain e (entity_ops e log)) (op ∷ []))
fold-commit e l log op own lt h =
    let (chain, last) = entity_ops-same e l log op own lt h in
    ap (fold_work_item_state e) chain ∙ fold-snoc e (entity_ops e log) op last
