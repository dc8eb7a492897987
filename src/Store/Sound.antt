-- ===== src/Store/Sound.antt =====
-- About the cache `work_items` and the table `op_log` of Store.antt.
use agent_notes.Prelude.{
  ℕ, ◌≤◌, ◌<◌, ◌≡◌, ◌≢◌, refl, Bool, true, false, Option, none, some, List, [], ◌∷◌, ◌++◌, ◌==◌,
  arith, Bool-cases, All, filter, filter-append, if◌then◌else◌, inl, inr,
}
use mathlib.Core.List.{append-nil}
use agent_notes.Ops.{Op}
use agent_notes.Kernel.{State}
use agent_notes.Kernel.Folding.{sort_ops-snoc, sort_ops-All}
use agent_notes.Store.Rows.{Row, state_of, find_entity, upsert}
use agent_notes.Store.{Db, entity_ops, fold_entity}

abbrev pub cached : Option Row → Option State
cached none = none
cached (some r) = some (state_of r)

-- No two rows of the cache share an entity.
abbrev pub IsKeyed : List Row → Type 0
IsKeyed [] = Unit
IsKeyed (r ∷ rows) = All (λ (x : Row). x.entity_id ≢ r.entity_id) rows × IsKeyed rows

abbrev pub Agrees : List Op → List Row → ℕ → Type 0
Agrees log rows e = fold_entity log e ≡ cached (find_entity e rows)

-- No op is newer than the sequence, and for every entity the cache is the fold of the log.
pub record IsSoundAt (lamport : ℕ) (log : List Op) (rows : List Row) : Type 0 where
  pub bounded : All (λ (o : Op). o.lamport ≤ lamport) log
  pub keyed : IsKeyed rows
  pub agrees : (e : ℕ) → Agrees log rows e

abbrev pub IsSound : Db → Type 0
IsSound db = IsSoundAt db.lamport db.op_log db.work_items

-- The same, but for the entity that a transaction is writing.
pub record IsPendingAt (entity : ℕ) (lamport : ℕ) (log : List Op) (rows : List Row) : Type 0 where
  pub bounded : All (λ (o : Op). o.lamport ≤ lamport) log
  pub keyed : IsKeyed rows
  pub agrees : (e : ℕ) → e ≢ entity → Agrees log rows e

abbrev pub IsPending : ℕ → Db → Type 0
IsPending entity db = IsPendingAt entity db.lamport db.op_log db.work_items

pub IsPending-of_sound : (entity : ℕ) (db : Db) → IsSound db → IsPending entity db
IsPending-of_sound entity db h = record {
  bounded = h.bounded;
  keyed = h.keyed;
  agrees = λ e _. h.agrees e;
}

pub ==_refl : (a : ℕ) → (a == a) ≡ true
==_refl a = ground arith

All-filter : (P : Op → Type 0) (p : Op → Bool) (ops : List Op) → All P ops → All P (filter p ops)
All-filter P p [] h = tt
All-filter P p (x ∷ ops) h = elim (Bool-cases (p x)) [
  | inl e ↦ rw e (h.0, All-filter P p ops h.1)
  | inr e ↦ rw e (All-filter P p ops h.1)
]

pub All-weaken :
    (l m : ℕ) (ops : List Op)
    → l ≤ m
    → All (λ (o : Op). o.lamport ≤ l) ops
    → All (λ (o : Op). o.lamport ≤ m) ops
All-weaken l m [] le h = tt
All-weaken l m (x ∷ ops) le h = (omega arith, All-weaken l m ops le h.1)

All-below :
    (l m : ℕ) (ops : List Op)
    → l < m
    → All (λ (o : Op). o.lamport ≤ l) ops
    → All (λ (o : Op). o.lamport < m) ops
All-below l m [] lt h = tt
All-below l m (x ∷ ops) lt h = (omega arith, All-below l m ops lt h.1)

-- A new op is the last of its entity's chain, and of no other chain.
pub entity_ops-same :
    (e l : ℕ) (log : List Op) (op : Op)
    → op.entity_id ≡ e
    → l < op.lamport
    → All (λ (o : Op). o.lamport ≤ l) log
    → (entity_ops e (log ++ op ∷ []) ≡ entity_ops e log ++ op ∷ [])
      × All (λ (o : Op). o.lamport < op.lamport) (entity_ops e log)
unfolding entity_ops
entity_ops-same e l log op own lt h =
    let mine : Op → Bool = λ (o : Op). o.entity_id == e in
    let below : All (λ (o : Op). o.lamport < op.lamport) (filter mine log) =
      All-filter _ mine log (All-below l op.lamport log lt h) in
    let last : mine op ≡ true = ground arith in
    (
      rw (filter-append mine log (op ∷ [])) (rw last (sort_ops-snoc (filter mine log) op below)),
      sort_ops-All _ (filter mine log) below,
    )

pub entity_ops-other :
    (e : ℕ) (log : List Op) (op : Op)
    → op.entity_id ≢ e
    → entity_ops e (log ++ op ∷ []) ≡ entity_ops e log
unfolding entity_ops
entity_ops-other e log op other =
    let mine : Op → Bool = λ (o : Op). o.entity_id == e in
    let not_mine : mine op ≡ false = ground arith in
    rw (filter-append mine log (op ∷ [])) (rw not_mine (rw append-nil))

pub find_entity-upsert :
    (e : ℕ) (row : Row) (rows : List Row)
    → find_entity e (upsert row rows)
      ≡ (if row.entity_id == e then some row else find_entity e rows)
unfolding find_entity upsert
find_entity-upsert e row [] = refl
find_entity-upsert e row (r ∷ rows) = ground (arith, find_entity-upsert e row rows)

upsert-All :
    (k : ℕ) (row : Row) (rows : List Row)
    → row.entity_id ≢ k
    → All (λ (x : Row). x.entity_id ≢ k) rows
    → All (λ (x : Row). x.entity_id ≢ k) (upsert row rows)
unfolding upsert
upsert-All k row [] n h = (n, tt)
upsert-All k row (r ∷ rows) n h = elim (Bool-cases (r.entity_id == row.entity_id)) [
  | inl e ↦ rw e (n, h.1)
  | inr e ↦ rw e (h.0, upsert-All k row rows n h.1)
]

pub upsert-IsKeyed : (row : Row) (rows : List Row) → IsKeyed rows → IsKeyed (upsert row rows)
unfolding upsert
upsert-IsKeyed row [] h = (tt, tt)
upsert-IsKeyed row (r ∷ rows) h = elim (Bool-cases (r.entity_id == row.entity_id)) [
  | inl e ↦ let same : r.entity_id ≡ row.entity_id = ground arith in rw e (rw same at h.0, h.1)
  | inr e ↦
      let differ : row.entity_id ≢ r.entity_id = ground arith in
      rw e (upsert-All r.entity_id row rows differ h.0, upsert-IsKeyed row rows h.1)
]
