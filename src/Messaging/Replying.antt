-- ===== src/Messaging/Replying.antt =====
-- About `reply` and `_reply_fields` of core/messaging.py.
use agent_notes.Prelude.{
  ℕ, String, ◌≡◌, refl, ap, ◌∙◌, ◌+◌, ◌≤◌, Bool, true, Option, none, some, arith, zero, suc, leb,
  not, ◌&&◌,
}
use Prim.Native.String.{count, ◌++◌ as concat}
use text.Mathlib.TextLemmas.{length-cons, length-append, length-nil}
use agent_notes.Messaging.{Message, Mail, Kind, done}
use agent_notes.Messaging.Answering.{find_message-id, get_message_lem}
use agent_notes.Messaging.Table.{get_message}
use agent_notes.Messaging.Keys.{is_blank, is_session_key}
use agent_notes.Messaging.Sending.{
  Draft, refers, may_request, send_message, check_draft, read_kind, new_message, insert_message,
  max_subject, max_body, fits, check_fields, check_address, is_registered,
}
use agent_notes.Messaging.Replies.{
  Answer, Route, to_sender, project_inbox, vm_inbox, reply_fields, route_of, shorten, first_chars,
  reply_subject, reply_message, default_subject,
}

pub first_chars-bound : (n : ℕ) (s : String) → count (first_chars n s) ≤ n
unfolding first_chars
first_chars-bound zero s = rw length-nil (omega arith)
first_chars-bound (suc n) String.[] = rw length-nil (omega arith)
first_chars-bound (suc n) (String.◌∷◌ c s) =
    let rest = first_chars-bound n s in rw length-cons (omega arith)

shorten-bound : (s : String) → leb (count (shorten s)) max_subject ≡ true
unfolding shorten
shorten-bound s =
    let cut = first_chars-bound 509 s in
    let length : count (concat (first_chars 509 s) "...") ≡ count (first_chars 509 s) + 3 =
      length-append (first_chars 509 s) "..." in
    ground arith

-- A subject that the code makes for a reply is never too long.
pub default_subject-fits : (o : Option String) → fits max_subject (default_subject o) ≡ true
default_subject-fits none = refl
default_subject-fits (some prior) =
    let new = shorten-bound (concat "Re: " prior) in let old = shorten-bound prior in ground arith

reply_subject-fits :
    (subject original : Option String)
    → fits max_subject subject ≡ true
    → fits max_subject (reply_subject subject original) ≡ true
unfolding reply_subject
reply_subject-fits (some s) original h = h
reply_subject-fits none original h = default_subject-fits original

abbrev pub from_key : Message → Bool
from_key m = elim m.from_session [ none ↦ true | some key ↦ is_session_key key ]

-- What is asked of a reply: a body within its bounds, and a subject, if any, within its own.
unfoldable pub well_written : Answer → Bool
well_written a = not (is_blank a.body) && leb (count a.body) max_body && fits max_subject a.subject

pub reply_fields-done :
    (m : Message) (a : Answer) (route : Route)
    → route_of m ≡ route
    → from_key m ≡ true
    → well_written a ≡ true
    → check_fields (reply_fields m a route) Kind.reply ≡ done tt
unfolding check_fields check_address reply_fields well_written route_of
reply_fields-done m a to_sender e key h =
    let subject = reply_subject-fits a.subject m.subject in ground arith
reply_fields-done m a project_inbox e key h =
    let subject = reply_subject-fits a.subject m.subject in ground arith
reply_fields-done m a vm_inbox e key h =
    let subject = reply_subject-fits a.subject m.subject in ground arith

pub send_message-done :
    (now : ℕ) (d : Draft) (mail : Mail) (kind : Kind)
    → check_draft d ≡ done kind
    → may_request kind d mail ≡ true
    → refers d.reply_to mail ≡ true
    → let m = new_message mail.next_id now kind d in
      send_message now d mail ≡ done ((m, is_registered d.to_session mail), insert_message m mail)
unfolding send_message
send_message-done now d mail kind passed may refers = rw passed (rw may (rw refers refl))

pub fields_kind :
    (m : Message) (a : Answer) (route : Route) → (reply_fields m a route).kind ≡ "reply"
unfolding reply_fields
fields_kind m a to_sender = refl
fields_kind m a project_inbox = refl
fields_kind m a vm_inbox = refl

pub fields_reply_to :
    (m : Message) (a : Answer) (route : Route) → (reply_fields m a route).reply_to ≡ some m.id
unfolding reply_fields
fields_reply_to m a to_sender = refl
fields_reply_to m a project_inbox = refl
fields_reply_to m a vm_inbox = refl

fields_to_session :
    (m : Message) (a : Answer) (route : Route)
    → route_of m ≡ route
    → (reply_fields m a route).to_session ≡ m.from_session
unfolding reply_fields route_of
fields_to_session m a to_sender e = refl
fields_to_session m a project_inbox e = ground arith
fields_to_session m a vm_inbox e = ground arith

pub check_draft-done :
    (d : Draft)
    → d.kind ≡ "reply"
    → check_fields d Kind.reply ≡ done tt
    → check_draft d ≡ done Kind.reply
unfolding check_draft read_kind
check_draft-done d kind fields =
    let read : read_kind d.kind ≡ some Kind.reply = rw kind refl in rw read (rw fields refl)

-- A reply to a message that is there is sent, if its sender's session is a key, the body is within
-- its bounds and so is the subject, where one is given: it names the message and goes to the session
-- that the message came from. A subject that the code makes is never refused.
pub reply_message-done :
    (now id : ℕ) (a : Answer) (mail : Mail) (m : Message)
    → get_message id mail ≡ some m
    → from_key m ≡ true
    → well_written a ≡ true
    → (sent : Message) × (reply_message now id a mail
        ≡ done ((sent, route_of m), insert_message sent mail))
      × (sent.reply_to ≡ some id)
      × (sent.to_session ≡ m.from_session)
unfolding reply_message
reply_message-done now id a mail m found key written =
    let d = reply_fields m a (route_of m) in
    let fields = reply_fields-done m a (route_of m) refl key written in
    let passed = check_draft-done d (fields_kind m a (route_of m)) fields in
    let to = fields_reply_to m a (route_of m) in
    let same = find_message-id id mail.messages m (get_message_lem id mail m found) in
    let refers_to : refers d.reply_to mail ≡ true = rw to (rw same (rw found refl)) in
    let out = send_message-done now d mail Kind.reply passed refl refers_to in
    (
      new_message mail.next_id now Kind.reply d,
      rw found (rw out refl),
      to ∙ ap some same,
      fields_to_session m a (route_of m) refl,
    )
