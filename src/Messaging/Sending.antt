-- ===== src/Messaging/Sending.antt =====
-- Sending: `send_message` and its checks.
use agent_notes.Prelude.{
  ℕ, String, ◌+◌, Bool, true, false, not, Option, none, some, [], ◌∷◌, ◌++◌, ◌&&◌, ◌||◌, str_eq,
  leb, if◌then◌else◌,
}
use Prim.Native.String.{count}
use agent_notes.Ops.Objects.{Dict}
use agent_notes.Messaging.{
  Kind, message, question, handoff, notice, request, Trust, normal, untrusted_input, Session,
  Message, Mail, Outcome, done, raised, ◌>>=◌, ◌>>◌, guard, or_else, is_some, not_a_key,
  unknown_kind, untrusted_request, empty_body, no_original, two_addresses, direct_notice, long_body,
  long_subject, no_recipient, request_to_vm, wake_not_direct,
}
use agent_notes.Messaging.Table.{get_session, get_message}
use agent_notes.Messaging.Keys.{is_blank, is_session_key}

abbrev pub max_body : ℕ
max_body = 32768

abbrev pub max_subject : ℕ
max_subject = 512

abbrev week : ℕ
week = 604800

-- KINDS
unfoldable pub read_kind : String → Option Kind
read_kind k =
    if str_eq k "message"
    then some message
    else if str_eq k "question"
    then some question
    else if str_eq k "reply"
    then some Kind.reply
    else if str_eq k "handoff"
    then some handoff
    else if str_eq k "notice"
    then some notice
    else if str_eq k "request"
    then some request
    else none

abbrev pub is_notice : Kind → Bool
is_notice notice = true
is_notice _ = false

abbrev pub is_request : Kind → Bool
is_request request = true
is_request _ = false

abbrev pub is_reply : Kind → Bool
is_reply Kind.reply = true
is_reply _ = false

abbrev pub is_untrusted : Trust → Bool
is_untrusted untrusted_input = true
is_untrusted normal = false

-- The arguments of `send_message`.
pub record Draft : Type 0 where
  pub workspace_id : ℕ
  pub from_vm : String
  pub body : String
  pub from_session : Option String
  pub from_project : Option String
  pub to_session : Option String
  pub to_project : Option String
  pub to_vm : Option String
  pub kind : String
  pub subject : Option String
  pub reply_to : Option ℕ
  pub payload : Dict
  pub wake : Bool
  pub expires_in : Option ℕ

abbrev pub fits : ℕ → Option String → Bool
fits limit none = true
fits limit (some s) = leb (count s) limit

-- The checks on the address of a message.
unfoldable pub check_address :
    Option String → Option String → Option String → Kind → Outcome (Unit {0})
unfolding is_session_key
check_address (some to_session) to_project to_vm kind = do
  guard (is_session_key to_session) not_a_key
  guard (not (is_some to_project || is_some to_vm)) two_addresses
  guard (not (is_notice kind)) direct_notice
check_address none to_project to_vm kind = guard (is_some to_project || is_some to_vm) no_recipient

-- The checks behind that of the kind.
unfoldable pub check_fields : Draft → Kind → Outcome (Unit {0})
unfolding is_blank check_address
check_fields d kind = do
  guard (not (is_blank d.body)) empty_body
  guard (leb (count d.body) max_body) long_body
  guard (fits max_subject d.subject) long_subject
  check_address d.to_session d.to_project d.to_vm kind
  guard (not (is_request kind) || is_some d.to_vm && not (is_some d.to_session)) request_to_vm
  guard (not d.wake || is_some d.to_session) wake_not_direct

abbrev pub kind_or_raise : Option Kind → Outcome Kind
kind_or_raise none = raised unknown_kind
kind_or_raise (some k) = done k

unfoldable pub check_draft : Draft → Outcome Kind
unfolding read_kind check_fields
check_draft d = do kind ← kind_or_raise (read_kind d.kind); check_fields d kind; done kind

abbrev is_untrusted_session : Option Session → Bool
is_untrusted_session none = false
is_untrusted_session (some s) = is_untrusted s.trust

abbrev sender_of : Option String → Mail → Option Session
sender_of none mail = none
sender_of (some key) mail = get_session key mail

abbrev pub may_request : Kind → Draft → Mail → Bool
may_request kind d mail =
    not (is_request kind && is_untrusted_session (sender_of d.from_session mail))

abbrev pub refers : Option ℕ → Mail → Bool
refers none mail = true
refers (some id) mail = is_some (get_message id mail)

-- The row of the INSERT.
abbrev pub new_message : ℕ → ℕ → Kind → Draft → Message
new_message id now kind d = record {
  id = id;
  workspace_id = d.workspace_id;
  from_session = d.from_session;
  from_vm = d.from_vm;
  from_project = d.from_project;
  to_session = d.to_session;
  to_project = d.to_project;
  to_vm = d.to_vm;
  kind = kind;
  reply_to = d.reply_to;
  subject = d.subject;
  body = d.body;
  payload = d.payload;
  wake = d.wake;
  claimed_by = none;
  claimed_at = none;
  created_at = now;
  expires_at = now + or_else d.expires_in week;
}

-- INSERT INTO agent_messages
abbrev pub insert_message : Message → Mail → Mail
insert_message m mail = record mail {
  messages = mail.messages ++ m ∷ [];
  next_id = mail.next_id + 1;
}

abbrev pub is_registered : Option String → Mail → Bool
is_registered to_session mail = not (is_some to_session) || is_some (sender_of to_session mail)

-- The row with `recipient_registered`.
unfoldable pub send_message : ℕ → Draft → Mail → Outcome ((Message × Bool) × Mail)
unfolding check_draft get_session get_message
send_message now d mail = do
  kind ← check_draft d
  guard (not (is_request kind && is_untrusted_session (sender_of d.from_session mail)))
      untrusted_request
  guard (refers d.reply_to mail) no_original
  let m = new_message mail.next_id now kind d
  done ((m, is_registered d.to_session mail), insert_message m mail)
