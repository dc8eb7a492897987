-- ===== src/Messaging/Replies.antt =====
-- Replies: `reply` with `_reply_fields`, `answer_request`, `replies_to`.
use agent_notes.Prelude.{
  ℕ, String, Bool, true, false, Option, none, some, List, [], ◌∷◌, ◌==◌, ◌&&◌, ◌||◌, str_eq, ltb,
  if◌then◌else◌, filter, zero, suc,
}
use Prim.Native.Char.{code}
use Prim.Native.String.{count}
use agent_notes.Ops.Objects.{Dict, insert, str}
use agent_notes.Messaging.{Message, Mail, Outcome, done, raised, ◌>>=◌, is_some, no_message}
use agent_notes.Messaging.Table.{get_message}
use agent_notes.Messaging.Sending.{max_subject, is_reply, Draft, send_message}

-- `prior.lower().startswith("re:")`: no other character has one of these as its lower case.
unfoldable pub starts_with_re : String → Bool
starts_with_re (String.◌∷◌ r (String.◌∷◌ e (String.◌∷◌ colon s))) =
    (code r == 82 || code r == 114) && (code e == 69 || code e == 101) && code colon == 58
starts_with_re _ = false

-- `s[:n]`
unfoldable pub first_chars : ℕ → String → String
first_chars zero s = ""
first_chars (suc n) String.[] = ""
first_chars (suc n) (String.◌∷◌ c s) = String.◌∷◌ c (first_chars n s)

unfoldable pub shorten : String → String
unfolding first_chars
shorten s =
    if ltb max_subject (count s) then Prim.Native.String.◌++◌ (first_chars 509 s) "..." else s

abbrev pub default_subject : Option String → Option String
default_subject none = none
default_subject (some prior) =
    if str_eq prior ""
    then none
    else some
        (shorten (if starts_with_re prior then prior else Prim.Native.String.◌++◌ "Re: " prior))

unfoldable pub reply_subject : Option String → Option String → Option String
unfolding starts_with_re shorten
reply_subject (some s) original = some s
reply_subject none original = default_subject original

pub data Route : Type 0 where
  to_sender project_inbox vm_inbox : Route

unfoldable pub route_of : Message → Route
route_of m =
    if is_some m.from_session
    then to_sender
    else if is_some m.from_project
    then project_inbox
    else vm_inbox

-- What the caller of a reply passes.
pub record Answer : Type 0 where
  pub from_session : Option String
  pub from_vm : String
  pub from_project : Option String
  pub body : String
  pub subject : Option String
  pub payload : Dict
  pub wake : Bool

-- `_reply_fields`, with the caller's own fields filled in.
unfoldable pub reply_fields : Message → Answer → Route → Draft
unfolding reply_subject insert
reply_fields m a route =
    let base : Draft = record {
      workspace_id = m.workspace_id;
      from_vm = a.from_vm;
      body = a.body;
      from_session = a.from_session;
      from_project = a.from_project;
      to_session = none;
      to_project = none;
      to_vm = none;
      kind = "reply";
      subject = reply_subject a.subject m.subject;
      reply_to = some m.id;
      payload = a.payload;
      wake = false;
      expires_in = none;
    } in
    elim route [
      | to_sender ↦ record base { to_session = m.from_session; wake = a.wake }
      | project_inbox ↦ record base {
        to_project = m.from_project;
        payload = insert "reply_routed" (str "project_inbox") a.payload;
      }
      | vm_inbox ↦ record base {
        to_vm = some m.from_vm;
        payload = insert "reply_routed" (str "vm_inbox") a.payload;
      }
    ]

abbrev pub original_of : Option Message → Outcome Message
original_of none = raised no_message
original_of (some m) = done m

-- `reply`: the message sent and how it was routed.
unfoldable pub reply_message : ℕ → ℕ → Answer → Mail → Outcome ((Message × Route) × Mail)
unfolding get_message route_of reply_fields send_message
reply_message now id a mail = do
  original ← original_of (get_message id mail)
  let route = route_of original
  sent ← send_message now (reply_fields original a route) mail
  done ((sent.0.0, route), sent.1)

abbrev pub replies : ℕ → Message → Bool
replies id m = is_reply m.kind && elim m.reply_to [ none ↦ false | some i ↦ i == id ]

-- WHERE reply_to AND kind = 'reply' ORDER BY id
unfoldable pub replies_to : ℕ → Mail → List Message
replies_to id mail = filter (replies id) mail.messages

abbrev pub first : List Message → Option Message
first [] = none
first (m ∷ rows) = some m

-- `fields["payload"]["sender"] = DISPATCHER_SENDER`
abbrev pub signed : Draft → Draft
signed d = record d { from_session = none; payload = insert "sender" (str "dispatcher") d.payload }

-- The reply to a request that has none yet.
unfoldable pub answer_first : ℕ → Message → Answer → Mail → Outcome ((Option Message × Bool) × Mail)
unfolding route_of reply_fields send_message insert
answer_first now original a mail = do
  sent ← send_message now (signed (reply_fields original a (route_of original))) mail
  done ((some sent.0.0, true), sent.1)

abbrev pub answer_once :
    ℕ → Message → Answer → Mail → Option Message → Outcome ((Option Message × Bool) × Mail)
answer_once now original a mail (some m) = done ((some m, false), mail)
answer_once now original a mail none = answer_first now original a mail

abbrev pub answer_found :
    ℕ → ℕ → Answer → Mail → Option Message → Outcome ((Option Message × Bool) × Mail)
answer_found now id a mail none = done ((none, false), mail)
answer_found now id a mail (some original) =
    answer_once now original a mail (first (replies_to id mail))

-- `answer_request`: the reply, and whether it was created.
unfoldable pub answer_request : ℕ → ℕ → Answer → Mail → Outcome ((Option Message × Bool) × Mail)
unfolding get_message replies_to answer_first
answer_request now id a mail = answer_found now id a mail (get_message id mail)
