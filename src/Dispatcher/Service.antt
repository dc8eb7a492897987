-- ===== src/Dispatcher/Service.antt =====
-- The schedule of wakes: `Dispatcher` of dispatcher/service.py, without its threads and connections.
-- `clock` is its monotonic clock and `now` the database's. An OperationalError, which the run loop
-- answers by reconnecting, is not modelled: any other exception of a wake settles its messages.
use agent_notes.Prelude.{
  ℕ, String, ◌+◌, Bool, true, false, not, Option, none, some, List, [], ◌∷◌, ◌++◌, ◌==◌, ◌&&◌, ◌||◌,
  str_eq, ltb, leb, if◌then◌else◌, filter, starts_with,
}
use Prim.Native.String.{◌++◌ as concat}
use agent_notes.Messaging.{Session, Message, Mail, Outcome, done, raised, is_some}
use agent_notes.Messaging.Table.{get_session, is_any, is_text, take}
use agent_notes.Messaging.Sending.{is_request, is_notice}
use agent_notes.Messaging.Claiming.{unclaimed}
use agent_notes.Dispatcher.Waker.{WakeOutcome, deferred, WakeResult, L3Waker, wake, sorted_set}

pub record Pending : Type 0 where
  pub session_key : String
  pub first_seen : ℕ
  pub due : ℕ

pub record Settings : Type 0 where
  pub vm : String
  pub waker : Option L3Waker
  pub sweep_interval : ℕ
  pub wake_delay : ℕ
  pub defer_window : ℕ

-- `_pending`, `_settled`, `_requests_dirty`, `_next_sweep`
pub record Plan : Type 0 where
  pub pending : List (ℕ × Pending)
  pub settled : List (ℕ × ℕ)
  pub requests_dirty : Bool
  pub next_sweep : ℕ

-- `id in d`
unfoldable pub has : {A : Type 0} → ℕ → List (ℕ × A) → Bool
has id [] = false
has id ((j, a) ∷ rows) = let rest = has id rows in j == id || rest

unfoldable pub pop : {A : Type 0} → ℕ → List (ℕ × A) → List (ℕ × A)
pop id [] = []
pop id ((j, a) ∷ rows) = let rest = pop id rows in if j == id then rest else (j, a) ∷ rest

-- `d[id] = a`
unfoldable pub put : {A : Type 0} → ℕ → A → List (ℕ × A) → List (ℕ × A)
put id a [] = (id, a) ∷ []
put id a ((j, b) ∷ rows) =
    let rest = put id a rows in if j == id then (id, a) ∷ rows else (j, b) ∷ rest

unfoldable pub find_pending : ℕ → List (ℕ × Pending) → Option Pending
find_pending id [] = none
find_pending id ((j, p) ∷ rows) =
    let rest = find_pending id rows in if j == id then some p else rest

-- `schedule_wake`
unfoldable pub schedule_wake : Settings → ℕ → ℕ → String → Plan → Plan
unfolding has
schedule_wake s clock id key plan =
    if has id plan.pending || has id plan.settled then plan else record plan {
      pending =
          plan.pending
          ++ (id, record { session_key = key; first_seen = clock; due = clock + s.wake_delay })
            ∷ [];
    }

-- What a notification says, if it is a JSON object. A key of the wrong type is none or false.
pub record Notice : Type 0 where
  pub is_request : Bool
  pub to_vm : Option String
  pub to_session : Option String
  pub wake : Bool
  pub id : Option ℕ

-- The payload of a notification, as json.loads reads it.
pub data Payload : Type 0 where
  not_json not_object : Payload
  object : Notice → Payload

abbrev in_vm : String → Option String → Bool
in_vm vm none = false
in_vm vm (some key) = starts_with key (concat vm "/")

abbrev pub scheduled : Settings → ℕ → Option ℕ → Option String → Plan → Plan
scheduled s clock (some id) (some key) plan = schedule_wake s clock id key plan
scheduled s clock _ _ plan = plan

abbrev pub noticed : Settings → ℕ → Notice → Plan → Plan
noticed s clock n plan =
    if n.is_request
    then (if is_text s.vm n.to_vm then record plan { requests_dirty = true } else plan)
    else if is_some s.waker && n.wake && in_vm s.vm n.to_session
    then scheduled s clock n.id n.to_session plan
    else plan

unfoldable pub on_notify : Settings → ℕ → Payload → Plan → Plan
unfolding schedule_wake is_text
on_notify s clock not_json plan = record plan { next_sweep = 0 }
on_notify s clock not_object plan = plan
on_notify s clock (object n) plan = noticed s clock n plan

-- `_settle`
unfoldable pub settle : ℕ → ℕ → Plan → Plan
unfolding pop put
settle clock id plan = record plan {
  pending = pop id plan.pending;
  settled = put id clock plan.settled;
}

unfoldable pub settle_all : ℕ → List ℕ → Plan → Plan
unfolding settle
settle_all clock [] plan = plan
settle_all clock (id ∷ ids) plan = settle_all clock ids (settle clock id plan)

abbrev pub retried : Settings → ℕ → ℕ → Option Pending → Plan → Plan
retried s clock id none plan = plan
retried s clock id (some p) plan =
    if leb (p.first_seen + s.defer_window) clock
    then settle clock id plan
    else record plan { pending = put id (record p { due = clock + s.sweep_interval }) plan.pending }

-- The loop over the messages to retry.
unfoldable pub retry_all : Settings → ℕ → List ℕ → Plan → Plan
unfolding settle put find_pending
retry_all s clock [] plan = plan
retry_all s clock (id ∷ ids) plan =
    retry_all s clock ids (retried s clock id (find_pending id plan.pending) plan)

abbrev is_deferred : WakeOutcome → Bool
is_deferred deferred = true
is_deferred _ = false

abbrev pub to_retry : WakeResult → List ℕ → List ℕ
to_retry r ids = sorted_set (if is_deferred r.outcome then ids else r.remaining)

-- Behind a wake: retry what is left, and settle the rest.
unfoldable pub after_wake : Settings → ℕ → List ℕ → Plan → Outcome WakeResult × Mail → Plan × Mail
unfolding settle_all retry_all sorted_set is_any
after_wake s clock ids plan (raised e, end) = (settle_all clock ids plan, end)
after_wake s clock ids plan (done r, end) = (
  settle_all clock (filter (λ id. not (is_any id (to_retry r ids))) ids)
      (retry_all s clock (to_retry r ids) plan),
  end,
)

-- `due.setdefault(session_key, []).append(mid)`
unfoldable pub add_due : String → ℕ → List (String × List ℕ) → List (String × List ℕ)
add_due key id [] = (key, id ∷ []) ∷ []
add_due key id ((k, ids) ∷ groups) =
    let rest = add_due key id groups in
    if str_eq k key then (k, ids ++ id ∷ []) ∷ groups else (k, ids) ∷ rest

unfoldable pub due_groups :
    Bool → ℕ → List (ℕ × Pending) → List (String × List ℕ) → List (String × List ℕ)
unfolding add_due
due_groups force clock [] groups = groups
due_groups force clock ((id, p) ∷ rows) groups =
    due_groups force clock rows
      (if force || leb p.due clock then add_due p.session_key id groups else groups)

unfoldable pub process_groups :
    (ℕ → Bool) → Settings → L3Waker → ℕ → ℕ → List (String × List ℕ) → Plan × Mail → Plan × Mail
unfolding after_wake wake
process_groups held s w clock now [] state = state
process_groups held s w clock now ((key, ids) ∷ groups) (plan, mail) =
    process_groups held s w clock now groups
      (after_wake s clock ids plan (wake held w now key ids mail))

abbrev pub processed :
    (ℕ → Bool) → Settings → Option L3Waker → ℕ → ℕ → Bool → Plan × Mail → Plan × Mail
processed held s none clock now force state = state
processed held s (some w) clock now force (plan, mail) =
    process_groups held s w clock now (due_groups force clock plan.pending []) (plan, mail)

-- `process_wakes`
unfoldable pub process_wakes : (ℕ → Bool) → Settings → ℕ → ℕ → Bool → Plan × Mail → Plan × Mail
unfolding process_groups due_groups
process_wakes held s clock now force state = processed held s s.waker clock now force state

abbrev on_vm : String → Option Session → Bool
on_vm vm none = false
on_vm vm (some t) = str_eq t.vm_id vm

abbrev session_at : Mail → Option String → Option Session
session_at mail none = none
session_at mail (some key) = get_session key mail

abbrev waits : Settings → ℕ → Mail → Message → Bool
waits s now mail m =
    m.wake
    && unclaimed m
    && not (is_request m.kind || is_notice m.kind)
    && ltb now m.expires_at
    && ltb now (m.created_at + s.defer_window)
    && on_vm s.vm (session_at mail m.to_session)

-- `_pending_wakes`
unfoldable pub pending_wakes : Settings → ℕ → Mail → List Message
unfolding get_session take
pending_wakes s now mail = take 500 (filter (waits s now mail) mail.messages)

unfoldable pub schedule_all : Settings → ℕ → List Message → Plan → Plan
unfolding schedule_wake
schedule_all s clock [] plan = plan
schedule_all s clock (m ∷ rows) plan =
    schedule_all s clock rows (scheduled s clock (some m.id) m.to_session plan)

-- `t > cutoff`, for the cutoff two windows ago
abbrev pub is_fresh : Settings → ℕ → ℕ × ℕ → Bool
is_fresh s clock e = ltb clock (e.1 + s.defer_window + s.defer_window)

-- `sweep`
unfoldable pub sweep : Settings → ℕ → ℕ → Mail → Plan → Plan
unfolding schedule_all pending_wakes
sweep s clock now mail plan =
    let kept : Plan = record plan {
      settled = filter (is_fresh s clock) plan.settled;
      next_sweep = clock + s.sweep_interval;
      requests_dirty = true;
    } in
    if is_some s.waker then schedule_all s clock (pending_wakes s now mail) kept else kept
