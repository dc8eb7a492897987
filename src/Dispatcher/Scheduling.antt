-- ===== src/Dispatcher/Scheduling.antt =====
-- About the tables of pending and settled messages of dispatcher/service.py.
use agent_notes.Prelude.{
  ℕ, String, ◌≡◌, refl, ◌+◌, Bool, true, false, not, Option, none, some, List, [], ◌∷◌, ◌==◌, ◌||◌,
  leb, if◌then◌else◌, filter, All, All-append, arith, Bool-cases, inl, inr, ==_iff,
}
use agent_notes.Messaging.{Message, Mail, Outcome, done, raised, is_some}
use agent_notes.Messaging.Table.{is_any, is_text}
use agent_notes.Dispatcher.Waker.{L3Waker, WakeResult, wake}
use agent_notes.Dispatcher.Service.{
  Plan, Pending, Settings, Notice, Payload, not_json, not_object, object, has, pop, put,
  find_pending, schedule_wake, on_notify, settle, settle_all, retry_all, retried, after_wake,
  process_groups, process_wakes, processed, due_groups, schedule_all, scheduled, noticed, sweep,
  is_fresh, pending_wakes, to_retry,
}

-- What is pending is not settled.
abbrev Free : List (ℕ × ℕ) → List (ℕ × Pending) → Type 0
Free settled pending = All (λ (e : ℕ × Pending). has e.0 settled ≡ false) pending

abbrev pub IsApart : Plan → Type 0
IsApart plan = Free plan.settled plan.pending

has-put :
    (i j t : ℕ) (rows : List (ℕ × ℕ))
    → (j == i) ≡ false
    → has i rows ≡ false
    → has i (put j t rows) ≡ false
unfolding has put
has-put i j t [] apart h = ground arith
has-put i j t ((k, u) ∷ rows) apart h = let rest = has-put i j t rows apart in ground arith

pop-Free :
    (id t : ℕ) (settled : List (ℕ × ℕ)) (rows : List (ℕ × Pending))
    → Free settled rows
    → Free (put id t settled) (pop id rows)
unfolding pop
pop-Free id t settled [] h = tt
pop-Free id t settled ((j, p) ∷ rows) h =
    let rest = pop-Free id t settled rows h.1 in
    elim (Bool-cases (j == id)) [
      | inl e ↦ rw e rest
      | inr e ↦ rw e (has-put j id t settled (ground arith) h.0, rest)
    ]

settle-IsApart : (clock id : ℕ) (plan : Plan) → IsApart plan → IsApart (settle clock id plan)
unfolding settle
settle-IsApart clock id plan h = pop-Free id clock plan.settled plan.pending h

settle_all-IsApart :
    (clock : ℕ) (ids : List ℕ) (plan : Plan) → IsApart plan → IsApart (settle_all clock ids plan)
unfolding settle_all
settle_all-IsApart clock [] plan h = h
settle_all-IsApart clock (id ∷ ids) plan h =
    settle_all-IsApart clock ids (settle clock id plan) (settle-IsApart clock id plan h)

put-Free :
    (id : ℕ) (p q : Pending) (settled : List (ℕ × ℕ)) (rows : List (ℕ × Pending))
    → Free settled rows
    → find_pending id rows ≡ some q
    → Free settled (put id p rows)
unfolding put find_pending
put-Free id p q settled [] h found = ground arith
put-Free id p q settled ((j, r) ∷ rows) h found =
    let rest = put-Free id p q settled rows h.1 in
    elim (Bool-cases (j == id)) [
      | inl e ↦ let same : j ≡ id = (==_iff j id).0 e in rw e (rw⁻¹ same h.0, h.1)
      | inr e ↦ rw e (h.0, rest (ground arith))
    ]

-- A retry is settled when its window is over, and else only put off.
retried-IsApart :
    (s : Settings) (clock id : ℕ) (plan : Plan) (o : Option Pending)
    → IsApart plan
    → find_pending id plan.pending ≡ o
    → IsApart (retried s clock id o plan)
retried-IsApart s clock id plan none h found = h
retried-IsApart s clock id plan (some p) h found =
    elim (Bool-cases (leb (p.first_seen + s.defer_window) clock)) [
      | inl e ↦ rw e (settle-IsApart clock id plan h)
      | inr e ↦ rw e (put-Free id _ p plan.settled plan.pending h found)
    ]

retry_all-IsApart :
    (s : Settings) (clock : ℕ) (ids : List ℕ) (plan : Plan)
    → IsApart plan
    → IsApart (retry_all s clock ids plan)
unfolding retry_all
retry_all-IsApart s clock [] plan h = h
retry_all-IsApart s clock (id ∷ ids) plan h =
    retry_all-IsApart s clock ids _
      (retried-IsApart s clock id plan (find_pending id plan.pending) h refl)

schedule_wake-IsApart :
    (s : Settings) (clock id : ℕ) (key : String) (plan : Plan)
    → IsApart plan
    → IsApart (schedule_wake s clock id key plan)
unfolding schedule_wake
schedule_wake-IsApart s clock id key plan h =
    elim (Bool-cases (has id plan.pending || has id plan.settled)) [
      | inl e ↦ rw e h
      | inr e ↦
          let new : has id plan.settled ≡ false = ground arith in
          rw e (
            All-append (λ (e : ℕ × Pending). has e.0 plan.settled ≡ false) plan.pending _ h
              (new, tt))
    ]

scheduled-IsApart :
    (s : Settings) (clock : ℕ) (id : Option ℕ) (key : Option String) (plan : Plan)
    → IsApart plan
    → IsApart (scheduled s clock id key plan)
scheduled-IsApart s clock (some id) (some key) plan h = schedule_wake-IsApart s clock id key plan h
scheduled-IsApart s clock (some id) none plan h = h
scheduled-IsApart s clock none key plan h = h

schedule_all-IsApart :
    (s : Settings) (clock : ℕ) (rows : List Message) (plan : Plan)
    → IsApart plan
    → IsApart (schedule_all s clock rows plan)
unfolding schedule_all
schedule_all-IsApart s clock [] plan h = h
schedule_all-IsApart s clock (m ∷ rows) plan h =
    schedule_all-IsApart s clock rows _ (scheduled-IsApart s clock (some m.id) m.to_session plan h)

if-IsApart : (b : Bool) (p q : Plan) → IsApart p → IsApart q → IsApart (if b then p else q)
if-IsApart true p q hp hq = hp
if-IsApart false p q hp hq = hq

noticed-IsApart :
    (s : Settings) (clock : ℕ) (n : Notice) (plan : Plan)
    → IsApart plan
    → IsApart (noticed s clock n plan)
noticed-IsApart s clock n plan h =
    let new = scheduled-IsApart s clock n.id n.to_session plan h in
    if-IsApart n.is_request _ _
      (if-IsApart (is_text s.vm n.to_vm) (record plan { requests_dirty = true }) plan h h)
      (if-IsApart _ (scheduled s clock n.id n.to_session plan) plan new h)

pub on_notify-IsApart :
    (s : Settings) (clock : ℕ) (n : Payload) (plan : Plan)
    → IsApart plan
    → IsApart (on_notify s clock n plan)
unfolding on_notify
on_notify-IsApart s clock not_json plan h = h
on_notify-IsApart s clock not_object plan h = h
on_notify-IsApart s clock (object n) plan h = noticed-IsApart s clock n plan h

filter-has :
    (f : ℕ × ℕ → Bool) (i : ℕ) (rows : List (ℕ × ℕ))
    → has i rows ≡ false
    → has i (filter f rows) ≡ false
unfolding has
filter-has f i [] h = refl
filter-has f i ((j, t) ∷ rows) h = let rest = filter-has f i rows in ground arith

filter-Free :
    (f : ℕ × ℕ → Bool) (settled : List (ℕ × ℕ)) (rows : List (ℕ × Pending))
    → Free settled rows
    → Free (filter f settled) rows
filter-Free f settled [] h = tt
filter-Free f settled ((j, p) ∷ rows) h =
    (filter-has f j settled h.0, filter-Free f settled rows h.1)

sweep-IsApart :
    (s : Settings) (clock now : ℕ) (mail : Mail) (plan : Plan)
    → IsApart plan
    → IsApart (sweep s clock now mail plan)
unfolding sweep
sweep-IsApart s clock now mail plan h =
    let kept = filter-Free (is_fresh s clock) plan.settled plan.pending h in
    elim (Bool-cases (is_some s.waker)) [
      | inl e ↦ rw e (schedule_all-IsApart s clock (pending_wakes s now mail) _ kept)
      | inr e ↦ rw e kept
    ]

after_wake-IsApart :
    (s : Settings) (clock : ℕ) (ids : List ℕ) (plan : Plan) (out : Outcome WakeResult × Mail)
    → IsApart plan
    → IsApart (after_wake s clock ids plan out).0
unfolding after_wake
after_wake-IsApart s clock ids plan (raised e, end) h = settle_all-IsApart clock ids plan h
after_wake-IsApart s clock ids plan (done r, end) h =
    settle_all-IsApart clock (filter (λ id. not (is_any id (to_retry r ids))) ids)
      (retry_all s clock (to_retry r ids) plan) (retry_all-IsApart s clock (to_retry r ids) plan h)

process_groups-IsApart :
    (held : ℕ → Bool) (s : Settings) (w : L3Waker) (clock now : ℕ) (groups : List (String × List ℕ))
    (state : Plan × Mail)
    → IsApart state.0
    → IsApart (process_groups held s w clock now groups state).0
unfolding process_groups
process_groups-IsApart held s w clock now [] state h = h
process_groups-IsApart held s w clock now ((key, ids) ∷ groups) (plan, mail) h =
    process_groups-IsApart held s w clock now groups _
      (after_wake-IsApart s clock ids plan (wake held w now key ids mail) h)

processed-IsApart :
    (held : ℕ → Bool) (s : Settings) (o : Option L3Waker) (clock now : ℕ) (force : Bool)
    (plan : Plan) (mail : Mail)
    → IsApart plan
    → IsApart (processed held s o clock now force (plan, mail)).0
processed-IsApart held s none clock now force plan mail h = h
processed-IsApart held s (some w) clock now force plan mail h =
    process_groups-IsApart held s w clock now (due_groups force clock plan.pending []) (plan, mail)
      h

process_wakes-IsApart :
    (held : ℕ → Bool) (s : Settings) (clock now : ℕ) (force : Bool) (plan : Plan) (mail : Mail)
    → IsApart plan
    → IsApart (process_wakes held s clock now force (plan, mail)).0
unfolding process_wakes
process_wakes-IsApart held s clock now force plan mail h =
    processed-IsApart held s s.waker clock now force plan mail h

-- The events of a running dispatcher, the mailbox changing in between as it will.
pub data Tick (s : Settings) (plan : Plan) : Plan → Type 0 where
  start : Tick s plan plan
  notified :
      {before : Plan} (clock : ℕ) (n : Payload)
      → Tick s plan before
      → Tick s plan (on_notify s clock n before)
  swept :
      {before : Plan} (clock now : ℕ) (mail : Mail)
      → Tick s plan before
      → Tick s plan (sweep s clock now mail before)
  woken :
      {before : Plan} (held : ℕ → Bool) (clock now : ℕ) (force : Bool) (mail : Mail)
      → Tick s plan before
      → Tick s plan (process_wakes held s clock now force (before, mail)).0

-- Whatever notifications, sweeps and passes over the due wakes a dispatcher has run through, no
-- message that is settled waits for a wake.
pub Tick-IsApart : (s : Settings) (plan end : Plan) → IsApart plan → Tick s plan end → IsApart end
Tick-IsApart s plan end h start = h
Tick-IsApart s plan end h (notified {before} clock n run) =
    on_notify-IsApart s clock n before (Tick-IsApart s plan before h run)
Tick-IsApart s plan end h (swept {before} clock now mail run) =
    sweep-IsApart s clock now mail before (Tick-IsApart s plan before h run)
Tick-IsApart s plan end h (woken {before} held clock now force mail run) =
    process_wakes-IsApart held s clock now force before mail (Tick-IsApart s plan before h run)
