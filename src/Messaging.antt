-- ===== src/Messaging.antt =====
-- The mailbox and the presence of agents: core/messaging.py over agent_sessions and agent_messages
-- (schema/851_agent_messaging.sql, 853, 854). This module has the tables and the exceptions.
-- A transaction is a function of the database: a raised exception rolls it back. Times are seconds
-- of the database's clock.
pub mod Keys
pub mod Table
pub mod Sessions
pub mod Sending
pub mod Replies
pub mod Claiming
pub mod Waking
pub mod Delivery
pub mod Invariant
pub mod Answering
pub mod Replying
pub mod Woken
use agent_notes.Prelude.{ℕ, String, Bool, true, false, Option, none, some, List}
use agent_notes.Ops.Objects.{Dict}

pub data WakePolicy : Type 0 where
  never direct any_direct_from_project : WakePolicy

pub data Trust : Type 0 where
  normal untrusted_input : Trust

pub data Kind : Type 0 where
  message question reply handoff notice request : Kind

-- A row of agent_sessions.
pub record Session : Type 0 where
  pub session_key : String
  pub workspace_id : ℕ
  pub vm_id : String
  pub harness : String
  pub session_id : String
  pub paseo_agent_id : Option String
  pub project_id : Option ℕ
  pub cwd : Option String
  pub wake_policy : WakePolicy
  pub wake_policy_explicit : Bool
  pub trust : Trust
  pub auto_continues : ℕ
  pub auto_continue_at : Option ℕ
  pub model : Option String
  pub started_at : ℕ
  pub last_seen_at : ℕ

-- A row of agent_messages.
pub record Message : Type 0 where
  pub id : ℕ
  pub workspace_id : ℕ
  pub from_session : Option String
  pub from_vm : String
  pub from_project : Option String
  pub to_session : Option String
  pub to_project : Option String
  pub to_vm : Option String
  pub kind : Kind
  pub reply_to : Option ℕ
  pub subject : Option String
  pub body : String
  pub payload : Dict
  pub wake : Bool
  pub claimed_by : Option String
  pub claimed_at : Option ℕ
  pub created_at : ℕ
  pub expires_at : ℕ

-- The columns of `projects` that the mailbox joins.
pub record Project : Type 0 where
  pub id : ℕ
  pub workspace_id : ℕ
  pub slug : String

-- `next_id` is the sequence of agent_messages; its rows stand in the order of their ids.
pub record Mail : Type 0 where
  pub sessions : List Session
  pub messages : List Message
  pub next_id : ℕ
  pub projects : List Project

-- A constructor for each `raise` of the module.
pub data MessagingError : Type 0 where
  -- `session_key` and `parse_session_key`
  empty_part slash_in_name not_a_key : MessagingError
  -- `register_session` and `set_session_policy`
  unknown_trust unknown_policy not_registered : MessagingError
  -- `send_message`
  unknown_kind empty_body long_body long_subject two_addresses direct_notice : MessagingError
  no_recipient request_to_vm wake_not_direct untrusted_request : MessagingError
  -- `reply`
  no_message : MessagingError
  -- the foreign key on `reply_to`
  no_original : MessagingError

pub data Outcome (A : Type 0) : Type 0 where
  done : A → Outcome A
  raised : MessagingError → Outcome A

infixl 5 ◌>>=◌ ◌>>◌
abbrev pub ◌>>=◌ : {A B : Type 0} → Outcome A → (A → Outcome B) → Outcome B
done a >>= f = f a
raised e >>= f = raised e

abbrev pub ◌>>◌ : {A B : Type 0} → Outcome A → Outcome B → Outcome B
m >> k = m >>= λ _. k

-- `if not test: raise error`
abbrev pub guard : Bool → MessagingError → Outcome (Unit {0})
guard true e = done tt
guard false e = raised e

-- COALESCE(a, b)
abbrev pub coalesce : {A : Type 0} → Option A → Option A → Option A
coalesce none b = b
coalesce (some a) b = some a

abbrev pub or_else : {A : Type 0} → Option A → A → A
or_else none b = b
or_else (some a) b = a

abbrev pub is_some : {A : Type 0} → Option A → Bool
is_some none = false
is_some (some a) = true
