-- ===== src/Tests/Messaging.antt =====
-- A mailbox with two sessions, a message and a request, and what the theorems say of it.
use agent_notes.Prelude.{
  ℕ, String, ◌≡◌, refl, ◌+◌, Bool, true, false, Option, none, some, List, [], ◌∷◌, map, filter,
  length, arith, All, ◌⊎◌, ◌≤◌, ◌-◌, inl, inr, ltb, if◌then◌else◌,
}
use agent_notes.Ops.Objects.{str}
use agent_notes.Messaging.Keys.{
  session_key, parse_session_key, join, parse_session_key-session_key, parse_session_key-join,
}
use agent_notes.Messaging.Table.{take}
use agent_notes.Messaging.Sessions.{default_policy}
use agent_notes.Messaging.Sending.{insert_message, fits, max_subject}
use agent_notes.Messaging.Replies.{
  Answer, to_sender, answer_request, reply_message, default_subject,
}
use agent_notes.Messaging.Claiming.{claim, claim_as, claim_deliverable, count_deliverable}
use agent_notes.Messaging.Delivery.{at_most, claim-oldest, claim_deliverable-count_deliverable}
use agent_notes.Messaging.Waking.{may_wake, sender_trust, pending_wake, next_wakeable}
use agent_notes.Messaging.Invariant.{IsMailSound}
use agent_notes.Messaging.Invariant.Steps.{MailRun-IsMailSound, idle, later, claim_deliverable_step}
use agent_notes.Messaging.Answering.{answer_request-once}
use agent_notes.Messaging.Replying.{reply_message-done, default_subject-fits}
use agent_notes.Messaging.Woken.{next_wakeable_complete}
use agent_notes.Messaging.{
  Session, Message, Mail, Kind, message, request, reply, normal, direct, never, Outcome, done,
  raised, Project,
}

abbrev pub session_of : String → String → String → Option String → Session
session_of key harness id agent = record {
  session_key = key;
  workspace_id = 1;
  vm_id = "vm";
  harness = harness;
  session_id = id;
  paseo_agent_id = agent;
  project_id = none;
  cwd = none;
  wake_policy = default_policy agent;
  wake_policy_explicit = false;
  trust = normal;
  auto_continues = 0;
  auto_continue_at = none;
  model = none;
  started_at = 0;
  last_seen_at = 0;
}

abbrev pub alice : Session
alice = session_of "vm/claude/a" "claude" "a" (some "agent")

abbrev pub bob : Session
bob = session_of "vm/codex/b" "codex" "b" none

abbrev pub row : ℕ → Kind → Option String → Option String → Bool → Message
row id kind to_session to_vm wake = record {
  id = id;
  workspace_id = 1;
  from_session = some "vm/codex/b";
  from_vm = "vm";
  from_project = none;
  to_session = to_session;
  to_project = none;
  to_vm = to_vm;
  kind = kind;
  reply_to = none;
  subject = some "s";
  body = "hi";
  payload = [];
  wake = wake;
  claimed_by = none;
  claimed_at = none;
  created_at = 0;
  expires_at = 100;
}

abbrev pub knock : Message
knock = row 0 message (some "vm/claude/a") none true

abbrev pub order : Message
order = row 1 request none (some "vm") false

abbrev pub desk : Mail
desk = record {
  sessions = alice ∷ bob ∷ [];
  messages = knock ∷ order ∷ [];
  next_id = 2;
  projects = [];
}

-- All that a call computes with.
unfoldable pub computed : {A : Type 0} → A → A
unfolding agent_notes.Messaging.Keys.is_blank agent_notes.Messaging.Keys.session_key
    agent_notes.Messaging.Keys.parse_session_key agent_notes.Messaging.Keys.is_session_key
    agent_notes.Messaging.Table.take agent_notes.Messaging.Table.update_where
    agent_notes.Messaging.Table.returning agent_notes.Messaging.Table.is_any
    agent_notes.Messaging.Table.is_text agent_notes.Messaging.Table.find_session
    agent_notes.Messaging.Table.find_message agent_notes.Messaging.Table.find_project
    agent_notes.Messaging.Table.get_session agent_notes.Messaging.Table.get_message
    agent_notes.Messaging.Table.project_of agent_notes.Messaging.Sessions.read_trust
    agent_notes.Messaging.Sessions.read_policy agent_notes.Messaging.Sessions.workspace_of
    agent_notes.Messaging.Sessions.refreshed agent_notes.Messaging.Sessions.upsert_session
    agent_notes.Messaging.Sessions.register_session agent_notes.Messaging.Sessions.update_session
    agent_notes.Messaging.Sessions.set_session_policy
    agent_notes.Messaging.Sessions.set_paseo_agent_id
    agent_notes.Messaging.Sessions.effective_auto_continues
    agent_notes.Messaging.Sessions.bump_auto_continue
    agent_notes.Messaging.Sessions.reset_auto_continue agent_notes.Messaging.Sending.read_kind
    agent_notes.Messaging.Sending.check_address agent_notes.Messaging.Sending.check_fields
    agent_notes.Messaging.Sending.check_draft agent_notes.Messaging.Sending.send_message
    agent_notes.Messaging.Replies.starts_with_re agent_notes.Messaging.Replies.first_chars
    agent_notes.Messaging.Replies.shorten agent_notes.Messaging.Replies.reply_subject
    agent_notes.Messaging.Replies.route_of agent_notes.Messaging.Replies.reply_fields
    agent_notes.Messaging.Replies.reply_message agent_notes.Messaging.Replies.replies_to
    agent_notes.Messaging.Replies.answer_first agent_notes.Messaging.Replies.answer_request
    agent_notes.Messaging.Claiming.addressee agent_notes.Messaging.Claiming.matches
    agent_notes.Messaging.Claiming.claim_ids agent_notes.Messaging.Claiming.claim
    agent_notes.Messaging.Claiming.claim_deliverable
    agent_notes.Messaging.Claiming.count_deliverable agent_notes.Messaging.Claiming.insert_row
    agent_notes.Messaging.Claiming.sort_rows agent_notes.Messaging.Claiming.inbox
    agent_notes.Messaging.Claiming.release_claims agent_notes.Messaging.Claiming.claim_requests
    agent_notes.Messaging.Claiming.claim_message agent_notes.Messaging.Claiming.prune
    agent_notes.Messaging.Waking.wake_refusal agent_notes.Messaging.Waking.may_wake
    agent_notes.Messaging.Waking.sender_trust agent_notes.Messaging.Waking.claim_row
    agent_notes.Messaging.Waking.wake_loop agent_notes.Messaging.Waking.next_wakeable
    agent_notes.Messaging.Invariant.checks agent_notes.Messaging.Invariant.promises
    agent_notes.Messaging.Invariant.keeps_default agent_notes.Messaging.Replying.well_written
    agent_notes.Dispatcher.Waker.insert_once agent_notes.Dispatcher.Waker.sorted_set
    agent_notes.Dispatcher.Waker.read_rows agent_notes.Dispatcher.Waker.deliverable_rows
    agent_notes.Dispatcher.Waker.resolve_agent agent_notes.Dispatcher.Waker.refusals_of
    agent_notes.Dispatcher.Waker.without_pruned agent_notes.Dispatcher.Waker.claim_loop
    agent_notes.Dispatcher.Waker.deliver agent_notes.Dispatcher.Waker.wake_agent
    agent_notes.Dispatcher.Waker.wake agent_notes.Prelude.Text.strip
    agent_notes.Dispatcher.Service.has agent_notes.Dispatcher.Service.pop
    agent_notes.Dispatcher.Service.put agent_notes.Dispatcher.Service.find_pending
    agent_notes.Dispatcher.Service.schedule_wake agent_notes.Dispatcher.Service.on_notify
    agent_notes.Dispatcher.Service.settle agent_notes.Dispatcher.Service.settle_all
    agent_notes.Dispatcher.Service.retry_all agent_notes.Dispatcher.Service.after_wake
    agent_notes.Dispatcher.Service.add_due agent_notes.Dispatcher.Service.due_groups
    agent_notes.Dispatcher.Service.process_groups agent_notes.Dispatcher.Service.process_wakes
    agent_notes.Dispatcher.Service.pending_wakes agent_notes.Dispatcher.Service.schedule_all
    agent_notes.Dispatcher.Service.sweep agent_notes.Dispatcher.Jobs.clip_body
    agent_notes.Dispatcher.Jobs.post_reply
computed a = a

pub desk-IsMailSound : IsMailSound desk
unfolding computed
desk-IsMailSound = (
  ((refl, refl, omega arith), ((refl, refl, omega arith), tt)),
  ((omega arith, tt), (tt, tt)),
  (refl, (refl, tt)),
)

abbrev pub answer : Answer
answer = record {
  from_session = none;
  from_vm = "vm";
  from_project = none;
  body = "done";
  subject = none;
  payload = [];
  wake = true;
}

parse_session_key-session_key_example :
    parse_session_key "vm/claude/a" ≡ done ("vm", ("claude", "a"))
unfolding computed
parse_session_key-session_key_example =
    parse_session_key-session_key "vm" "claude" "a" "vm/claude/a" refl

parse_session_key-join_example : join "vm" "claude" "a/b" ≡ "vm/claude/a/b"
unfolding computed
parse_session_key-join_example = parse_session_key-join "vm/claude/a/b" "vm" "claude" "a/b" refl

claim-oldest_example :
    (claim (λ i. false) (λ m. true) "vm/claude/a" 1 10 desk).0
    ≡ claim_as "vm/claude/a" 10 knock ∷ []
unfolding computed
claim-oldest_example =
    claim-oldest (λ i. false) (λ m. true) "vm/claude/a" 1 10 desk desk-IsMailSound.1

abbrev delivery : Outcome (List Message × Mail)
delivery = claim_deliverable (λ i. false) "vm/claude/a" false true 5 10 desk

abbrev delivered_mail : Mail
delivered_mail = record desk { messages = claim_as "vm/claude/a" 10 knock ∷ order ∷ [] }

claim_deliverable-count_deliverable_example :
    (n : ℕ) × (count_deliverable "vm/claude/a" true 10 desk ≡ done n)
    × (1 ≡ at_most 5 n)
    × (count_deliverable "vm/claude/a" true 10 delivered_mail ≡ done (n - 5))
unfolding computed
claim_deliverable-count_deliverable_example =
    claim_deliverable-count_deliverable "vm/claude/a" true 5 10 desk delivered_mail
      (claim_as "vm/claude/a" 10 knock ∷ []) desk-IsMailSound.1 refl

MailRun-IsMailSound_example : IsMailSound delivered_mail
unfolding computed
MailRun-IsMailSound_example = MailRun-IsMailSound desk delivered_mail desk-IsMailSound (
    later delivered_mail idle (
      claim_deliverable_step (λ i. false) "vm/claude/a" false true 5 10
        (claim_as "vm/claude/a" 10 knock ∷ []) refl))

abbrev pub reply_row : Message
reply_row = record {
  id = 2;
  workspace_id = 1;
  from_session = none;
  from_vm = "vm";
  from_project = none;
  to_session = some "vm/codex/b";
  to_project = none;
  to_vm = none;
  kind = reply;
  reply_to = some 1;
  subject = some "Re: s";
  body = "done";
  payload = ("sender", str "dispatcher") ∷ [];
  wake = true;
  claimed_by = none;
  claimed_at = none;
  created_at = 10;
  expires_at = 604810;
}

abbrev answered_desk : Mail
answered_desk = record desk { messages = knock ∷ order ∷ reply_row ∷ []; next_id = 3 }

answer_request-once_example :
    answer_request 20 1 answer answered_desk ≡ done ((some reply_row, false), answered_desk)
unfolding computed
answer_request-once_example =
    answer_request-once 10 20 1 answer answer desk answered_desk reply_row true refl

reply_message-done_example :
    (sent : Message) × (reply_message 10 1 answer desk
      ≡ done ((sent, to_sender), insert_message sent desk))
    × (sent.reply_to ≡ some 1)
    × (sent.to_session ≡ some "vm/codex/b")
unfolding computed
reply_message-done_example = reply_message-done 10 1 answer desk order refl refl refl

default_subject-fits_example : fits max_subject (default_subject (some "s")) ≡ true
default_subject-fits_example = default_subject-fits (some "s")

next_wakeable_complete_example :
    All
      (λ m. may_wake (some (bob, none)) m (sender_trust m desk) ≡ false)
      (take 50 (filter (pending_wake 10 bob) desk.messages))
unfolding computed
next_wakeable_complete_example = next_wakeable_complete (λ i. false) 10 bob none desk refl
