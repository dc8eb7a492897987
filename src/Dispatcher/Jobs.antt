-- ===== src/Dispatcher/Jobs.antt =====
-- Posting the reply of a job: `post_reply` of dispatcher/jobs.py. A store that is away for a moment
-- is a raised exception here; the waits between the attempts are left out.
use agent_notes.Prelude.{
  ℕ, String, ◌≡◌, refl, Bool, true, false, Option, none, some, zero, suc, ltb, leb, if◌then◌else◌,
  arith, Option-cases, inl, inr, ◌+◌,
}
use Prim.Native.String.{count, ◌++◌ as concat}
use text.Mathlib.TextLemmas.{length-append}
use agent_notes.Ops.Objects.{Dict}
use agent_notes.Messaging.{Kind, Message, Mail, Outcome, done, raised}
use agent_notes.Messaging.Keys.{is_blank}
use agent_notes.Messaging.Table.{get_message}
use agent_notes.Messaging.Sending.{
  max_body, max_subject, fits, Draft, check_fields, refers, new_message, insert_message,
}
use agent_notes.Messaging.Replies.{
  Answer, answer_request, answer_first, first, replies_to, first_chars, reply_fields, route_of,
  signed,
}
use agent_notes.Messaging.Replying.{
  first_chars-bound, from_key, well_written, reply_fields-done, check_draft-done, fields_kind,
  fields_reply_to, send_message-done,
}
use agent_notes.Messaging.Answering.{answer_first_once, first_none, answered}

pub record JobReply : Type 0 where
  pub body : String
  pub payload : Dict
  pub subject : Option String

-- `body[: MAX_BODY - 20] + "\n...(truncated)"`
unfoldable pub clip_body : String → String
unfolding first_chars
clip_body body =
    if ltb max_body (count body) then concat (first_chars 32748 body) "\n...(truncated)" else body

abbrev pub answer_of : String → Option String → JobReply → Answer
answer_of vm from_project r = record {
  from_session = none;
  from_vm = vm;
  from_project = from_project;
  body = clip_body r.body;
  subject = r.subject;
  payload = r.payload;
  wake = true;
}

abbrev next_attempt : Outcome ((Option Message × Bool) × Mail) → Mail → Bool × Mail → Bool × Mail
next_attempt (done (r, end)) mail rest = (true, end)
next_attempt (raised e) mail rest = rest

-- The loop over the attempts; an attempt that raises changes nothing.
unfoldable pub post_reply : ℕ → ℕ → Message → JobReply → String → Mail → Bool × Mail
unfolding clip_body answer_request
post_reply zero now m r vm mail = (false, mail)
post_reply (suc attempts) now m r vm mail =
    next_attempt (answer_request now m.id (answer_of vm m.from_project r) mail) mail
      (post_reply attempts now m r vm mail)

clip_body-bound : (body : String) → leb (count (clip_body body)) max_body ≡ true
unfolding clip_body
clip_body-bound body =
    let cut = first_chars-bound 32748 body in
    let length : count (concat (first_chars 32748 body) "\n...(truncated)")
        ≡ count (first_chars 32748 body) + 15 =
      length-append (first_chars 32748 body) "\n...(truncated)" in
    ground arith

signed-fields :
    (d : Draft) → check_fields d Kind.reply ≡ done tt → check_fields (signed d) Kind.reply ≡ done tt
unfolding check_fields
signed-fields d h = h

-- The first answer to a request that is there goes out.
answer_first-done :
    (now : ℕ) (m : Message) (a : Answer) (mail : Mail)
    → get_message m.id mail ≡ some m
    → from_key m ≡ true
    → well_written a ≡ true
    → (row : Message) × (end : Mail) × (answer_first now m a mail ≡ done ((some row, true), end))
unfolding answer_first
answer_first-done now m a mail found key written =
    let d = signed (reply_fields m a (route_of m)) in
    let fields =
      signed-fields (reply_fields m a (route_of m))
        (reply_fields-done m a (route_of m) refl key written) in
    let passed = check_draft-done d (fields_kind m a (route_of m)) fields in
    let to = fields_reply_to m a (route_of m) in
    let refers_to : refers d.reply_to mail ≡ true = rw to (rw found refl) in
    let row = new_message mail.next_id now Kind.reply d in
    (
      row,
      insert_message row mail,
      rw (send_message-done now d mail Kind.reply passed refl refers_to) refl,
    )

answered_first :
    (now : ℕ) (m : Message) (a : Answer) (mail : Mail) (row : Message) (end : Mail)
    → get_message m.id mail ≡ some m
    → first (replies_to m.id mail) ≡ none
    → answer_first now m a mail ≡ done ((some row, true), end)
    → answer_request now m.id a mail ≡ done ((some row, true), end)
unfolding answer_request
answered_first now m a mail row end found nothing sent = rw found (rw nothing sent)

written :
    (r : JobReply) (vm : String) (from_project : Option String)
    → is_blank (clip_body r.body) ≡ false
    → fits max_subject r.subject ≡ true
    → well_written (answer_of vm from_project r) ≡ true
unfolding well_written
written r vm from_project ink subject = let short = clip_body-bound r.body in ground arith

-- An attempt that returned ends the loop.
attempted :
    (o : Outcome ((Option Message × Bool) × Mail)) (result : Option Message × Bool)
    (mail end : Mail) (rest : Bool × Mail)
    → o ≡ done (result, end)
    → next_attempt o mail rest ≡ (true, end)
attempted o result mail end rest e = rw e refl

-- Posting a job's reply to a request that is still there succeeds with the first attempt, however long
-- the reply is, if the requester's session is a key, the clipped text is not blank and the subject
-- fits: the request has a reply then.
pub post_reply_answers :
    (attempts now : ℕ) (m : Message) (r : JobReply) (vm : String) (mail : Mail)
    → get_message m.id mail ≡ some m
    → from_key m ≡ true
    → is_blank (clip_body r.body) ≡ false
    → fits max_subject r.subject ≡ true
    → ((post_reply (suc attempts) now m r vm mail).0 ≡ true)
      × ((reply : Message) × (first (replies_to m.id (post_reply (suc attempts) now m r vm mail).1)
            ≡ some reply))
unfolding post_reply
post_reply_answers attempts now m r vm mail found key ink subject =
    let a = answer_of vm m.from_project r in
    elim (Option-cases (first (replies_to m.id mail))) [
      | inr (x, e) ↦
          let out = answered now m.id a mail m x found e in
          let over = attempted _ _ mail mail (post_reply attempts now m r vm mail) out in
          rw over (refl, (x, e))
      | inl e ↦
          let (row, end, sent) =
            answer_first-done now m a mail found key (written r vm m.from_project ink subject) in
          let (_, reply) =
            answer_first_once now m.id m row a mail end true refl (first_none _ e) found sent in
          let out = answered_first now m a mail row end found e sent in
          let over = attempted _ _ mail end (post_reply attempts now m r vm mail) out in
          rw over (refl, (row, reply))
    ]
