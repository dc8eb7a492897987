-- ===== src/Messaging/Invariant.antt =====
-- About the state of the mailbox: the CHECK constraints of agent_messages (schema/851, 853), the rules of
-- core/messaging.py for wakes, notices and claims, the order of ids, and the default wake policy.
pub mod Sends
pub mod Claims
pub mod Presence
pub mod Steps
use agent_notes.Prelude.{
  ℕ, String, ◌≡◌, ◌≢◌, refl, ap, ◌+◌, ◌≤◌, ◌<◌, Bool, true, false, Option, none, some, List, [],
  ◌∷◌, ◌++◌, map, All, All-In, All-append, arith, length, filter, Bool-cases, inl, inr, zero, suc,
  if◌then◌else◌, ltb, leb, not, ◌&&◌, ◌==◌, ◌||◌, any, In,
}
use Prim.Native.String.{count}
use agent_notes.Messaging.{Message, Mail, Session, WakePolicy, never, direct, is_some}
use agent_notes.Messaging.Table.{update_where, take}
use agent_notes.Messaging.Sending.{is_notice, is_request, max_body, max_subject, fits}
use agent_notes.Messaging.Sessions.{default_policy}
use agent_notes.Messaging.Claiming.{unclaimed}
use agent_notes.Messaging.Delivery.{IsAscending}

-- The CHECK constraints of agent_messages.
unfoldable pub checks : Message → Bool
checks m =
    (is_some m.to_session || is_some m.to_project || is_some m.to_vm)
    && (not (is_some m.to_session) || not (is_some m.to_project || is_some m.to_vm))
    && (not (is_notice m.kind) || not (is_some m.to_session))
    && (not (is_request m.kind) || is_some m.to_vm && not (is_some m.to_session))
    && leb (count m.body) max_body
    && fits max_subject m.subject

-- Only a direct message wakes, no notice is ever claimed, and a claim has its time.
unfoldable pub promises : Message → Bool
promises m =
    (not m.wake || is_some m.to_session)
    && (not (is_notice m.kind) || unclaimed m)
    && (if is_some m.claimed_by then is_some m.claimed_at else not (is_some m.claimed_at))

abbrev pub IsStored : ℕ → Message → Type 0
IsStored next m = (checks m ≡ true) × (promises m ≡ true) × (m.id < next)

abbrev same_policy : WakePolicy → WakePolicy → Bool
same_policy never never = true
same_policy direct direct = true
same_policy _ _ = false

unfoldable pub keeps_default : Session → Bool
keeps_default s =
    s.wake_policy_explicit || same_policy s.wake_policy (default_policy s.paseo_agent_id)

abbrev pub IsMailSound : Mail → Type 0
IsMailSound mail =
    All (IsStored mail.next_id) mail.messages
    × IsAscending mail.messages
    × All (λ s. keeps_default s ≡ true) mail.sessions

pub All-update_where :
    {A : Type 0} (P : A → Type 0) (p : A → Bool) (f : A → A)
    → ((a : A) → P a → p a ≡ true → P (f a))
    → (rows : List A) → All P rows
    → All P (update_where p f rows)
unfolding update_where
All-update_where P p f keeps [] h = tt
All-update_where P p f keeps (m ∷ rows) h =
    let rest = All-update_where P p f keeps rows h.1 in
    elim (Bool-cases (p m)) [ inl e ↦ rw e (keeps m h.0 e, rest) | inr e ↦ rw e (h.0, rest) ]

pub update_where-IsAscending :
    (p : Message → Bool) (f : Message → Message)
    → ((m : Message) → (f m).id ≡ m.id)
    → (rows : List Message) → IsAscending rows
    → IsAscending (update_where p f rows)
unfolding update_where
update_where-IsAscending p f same [] h = tt
update_where-IsAscending p f same (m ∷ rows) h =
    let rest = update_where-IsAscending p f same rows h.1 in
    let above =
      All-update_where (λ (n : Message). m.id < n.id) p f (λ n k e. rw (same n) k) rows h.0 in
    elim (Bool-cases (p m)) [
      | inl e ↦ rw e (rw (same m) (above, rest))
      | inr e ↦ rw e (above, rest)
    ]

pub All-filter :
    {A : Type 0} (P : A → Type 0) (p : A → Bool) (rows : List A)
    → All P rows
    → All P (filter p rows)
All-filter P p [] h = tt
All-filter P p (m ∷ rows) h =
    let rest = All-filter P p rows h.1 in
    elim (Bool-cases (p m)) [ inl e ↦ rw e (h.0, rest) | inr e ↦ rw e rest ]

pub filter-IsAscending :
    (p : Message → Bool) (rows : List Message) → IsAscending rows → IsAscending (filter p rows)
filter-IsAscending p [] h = tt
filter-IsAscending p (m ∷ rows) h =
    let rest = filter-IsAscending p rows h.1 in
    let above = All-filter (λ (n : Message). m.id < n.id) p rows h.0 in
    elim (Bool-cases (p m)) [ inl e ↦ rw e (above, rest) | inr e ↦ rw e rest ]

pub All-map :
    {A : Type 0} (P : A → Type 0) (f : A → A)
    → ((a : A) → P a → P (f a))
    → (rows : List A) → All P rows
    → All P (map f rows)
All-map P f keeps [] h = tt
All-map P f keeps (m ∷ rows) h = (keeps m h.0, All-map P f keeps rows h.1)

pub All-mono :
    {A : Type 0} (P Q : A → Type 0)
    → ((a : A) → P a → Q a)
    → (rows : List A) → All P rows
    → All Q rows
All-mono P Q f [] h = tt
All-mono P Q f (m ∷ rows) h = (f m h.0, All-mono P Q f rows h.1)

pub map-IsAscending :
    (f : Message → Message)
    → ((m : Message) → (f m).id ≡ m.id)
    → (rows : List Message) → IsAscending rows
    → IsAscending (map f rows)
map-IsAscending f same [] h = tt
map-IsAscending f same (m ∷ rows) h = (
  All-map (λ (n : Message). (f m).id < n.id) f (λ n k. rw (same n) k) rows (rw (same m) h.0),
  map-IsAscending f same rows h.1,
)

-- A new row has an id above all others.
pub append-IsAscending :
    (m : Message) (rows : List Message)
    → IsAscending rows
    → All (λ (n : Message). n.id < m.id) rows
    → IsAscending (rows ++ m ∷ [])
append-IsAscending m [] h below = (tt, tt)
append-IsAscending m (n ∷ rows) h below = (
  All-append (λ (k : Message). n.id < k.id) rows (m ∷ []) h.0 (below.0, tt),
  append-IsAscending m rows h.1 below.1,
)

pub All-take :
    {A : Type 0} (P : A → Type 0) (n : ℕ) (rows : List A) → All P rows → All P (take n rows)
unfolding take
All-take P zero rows h = tt
All-take P (suc n) [] h = tt
All-take P (suc n) (m ∷ rows) h = (h.0, All-take P n rows h.1)

pub All-self : (rows : List Message) → All (λ m. In m rows) rows
All-self [] = tt
All-self (m ∷ rows) = (
  inl refl,
  All-mono (λ n. In n rows) (λ n. In n (m ∷ rows)) (λ n here. inr here) rows (All-self rows),
)
