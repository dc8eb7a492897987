-- ===== src/Review/Consumption.antt =====
-- About the compare-and-set of core/work_item/_review_journal.py.
use agent_notes.Prelude.{
  ℕ, String, ◌≡◌, refl, none, some, List, arith, ok, err, Option, [], ◌∷◌, str_eq, Bool-cases, inl,
  inr, if◌then◌else◌, attempt_state, not_independent, ◌==◌, ◌&&◌, Result,
}
use mathlib.Core.Path.{subst}
use agent_notes.Ops.{Reviewer}
use agent_notes.Lifecycle.{Transition}
use agent_notes.Store.{
  Db, Host, Attempt, AttemptStatus, transition_applied, ◌>>=◌, transition_pending, found_or,
  require,
}
use agent_notes.Store.Steps.{ran}
use agent_notes.Review.Attempts.{
  find_attempt, set_attempt, compare_and_set, consume_attempt, attempt_reviewer,
  mark_transition_applied, mark_transition_pending, matching, get_attempt, status_is,
}

pub find_attempt-set_attempt :
    (key : String) (f : Attempt → Attempt) (attempts : List Attempt) (a : Attempt)
    → ((x : Attempt) → (f x).attempt_id ≡ x.attempt_id)
    → find_attempt key attempts ≡ some a
    → find_attempt key (set_attempt key f attempts) ≡ some (f a)
unfolding find_attempt set_attempt
find_attempt-set_attempt key f [] a keeps h = cc
find_attempt-set_attempt key f (x ∷ rest) a keeps h = elim (Bool-cases (str_eq x.attempt_id key)) [
  | inl t ↦ ground (arith, t, h, keeps x)
  | inr e ↦ rw (e, e) (find_attempt-set_attempt key f rest a keeps (rw e at h))
]

ok_lem :
    (d : Db) (u v : Unit {0}) (end : Db)
    → ◌≡◌ {A = Result (Unit {0} × Db)} (ok (u, d)) (ok (v, end))
    → d ≡ end
ok_lem d u v end h = ground arith

module _ (key : String) (expected target : AttemptStatus) (f : Attempt → Attempt) where
  -- What `_compare_and_set` leaves of the attempt, given what it found.
  set :
      (db : Db) (u : Unit {0}) (end : Db) (o : Option Attempt)
      → ((x : Attempt) → (f x).attempt_id ≡ x.attempt_id)
      → find_attempt key db.attempts ≡ o
      → ◌≡◌ {A = Result (Unit {0} × Db)}
          (if matching key expected o
            then ok (
              tt,
              record db {
                attempts = set_attempt key (λ a. record (f a) { status = target }) db.attempts;
              },
            )
            else err attempt_state)
          (ok (u, end))
      → (a : Attempt) × (find_attempt key end.attempts ≡ some a) × (a.status ≡ target)
  set db u end none keeps q r = cc
  set db u end (some a) keeps q r = elim (Bool-cases (status_is a.status expected)) [
    | inl t ↦
        let done = ok_lem _ tt u end (rw t at r) in
        (
          record (f a) { status = target },
          subst (λ (d : Db). find_attempt key d.attempts ≡ some (record (f a) { status = target }))
              done
              (find_attempt-set_attempt key (λ x. record (f x) { status = target }) db.attempts a
                keeps q),
          refl,
        )
    | inr e ↦ cc (rw e at r)
  ]

  set_lem :
      (db : Db) (u : Unit {0}) (end : Db)
      → ((x : Attempt) → (f x).attempt_id ≡ x.attempt_id)
      → compare_and_set key expected target f db ≡ ok (u, end)
      → (a : Attempt) × (find_attempt key end.attempts ≡ some a) × (a.status ≡ target)
  unfolding compare_and_set
  set_lem db u end keeps h = set db u end (find_attempt key db.attempts) keeps refl h

consumed_lem :
    (r : Reviewer) (t : Transition) (op_id : ℕ) (key : String) (db : Db) (u : Unit {0}) (end : Db)
    → r.attempt_id ≡ some key
    → consume_attempt r t op_id db ≡ ok (u, end)
    → (a : Attempt) × (find_attempt key end.attempts ≡ some a) × (a.status ≡ transition_applied)
unfolding consume_attempt mark_transition_applied
consumed_lem r t op_id key db u end k h =
    let done =
      ran (mark_transition_pending key t op_id) (λ _. mark_transition_applied key) db u end
        (rw k at h) in
    set_lem key transition_pending transition_applied (λ a. a) done.middle u end (λ x. refl)
      done.rest

-- Once `consume_attempt` has returned for a reviewer with an attempt, it fails with a state error for
-- that reviewer on the database it left, whatever the verdict and the op.
pub consume_attempt-once :
    (r : Reviewer) (t : Transition) (op_id : ℕ) (key : String) (db : Db) (u : Unit {0}) (end : Db)
    → r.attempt_id ≡ some key
    → consume_attempt r t op_id db ≡ ok (u, end)
    → (t' : Transition) (op_id' : ℕ) → consume_attempt r t' op_id' end ≡ err attempt_state
unfolding consume_attempt mark_transition_pending compare_and_set ◌>>=◌
consume_attempt-once r t op_id key db u end k h t' op_id' =
    let (a, found, s) = consumed_lem r t op_id key db u end k h in rw (k, found, s) refl

-- Once an attempt has been consumed, `attempt_reviewer` refuses it on the database left behind, for
-- every project and item and for every text that uuid.UUID reads as its ID.
pub attempt_reviewer-once :
    (host : Host) (r : Reviewer) (t : Transition) (op_id : ℕ) (key : String) (db : Db)
    (u : Unit {0}) (end : Db)
    → r.attempt_id ≡ some key
    → consume_attempt r t op_id db ≡ ok (u, end)
    → (text : String) → host.parse_uuid text ≡ some key
    → (p e : ℕ) → attempt_reviewer host text p e end ≡ err not_independent
unfolding attempt_reviewer get_attempt ◌>>=◌ found_or require
attempt_reviewer-once host r t op_id key db u end k h text read p e =
    let (a, found, s) = consumed_lem r t op_id key db u end k h in
    elim (Bool-cases (a.project_id == p && a.work_item_entity_id == e)) [
      | inl b ↦ rw (read, found, b, s) refl
      | inr b ↦ rw (read, found, b) refl
    ]
