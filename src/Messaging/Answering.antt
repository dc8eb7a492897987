-- ===== src/Messaging/Answering.antt =====
-- About `answer_request` of core/messaging.py.
use agent_notes.Prelude.{
  ℕ, ◌≡◌, refl, sym, ap, ◌∙◌, Bool, true, false, Option, none, some, List, [], ◌∷◌, ◌++◌, arith,
  filter-append, ==_iff,
}
use agent_notes.Messaging.{Message, Mail, Kind, done}
use agent_notes.Messaging.Table.{get_message, find_message}
use agent_notes.Messaging.Sending.{
  Draft, kind_or_raise, send_message, check_draft, read_kind, check_fields,
}
use agent_notes.Messaging.Replies.{
  Answer, Route, to_sender, project_inbox, vm_inbox, answer_request, answer_found, answer_once,
  answer_first, first, replies_to, replies, signed, reply_fields, route_of,
}
use agent_notes.Messaging.Invariant.Sends.{bind-of, checked-of, done_inj, send_message-row}

pub find_message-id :
    (id : ℕ) (rows : List Message) (m : Message) → find_message id rows ≡ some m → m.id ≡ id
unfolding find_message
find_message-id id [] m h = ground arith
find_message-id id (n ∷ rows) m h = ground (arith, find_message-id id rows m)

find_message-append :
    (id : ℕ) (rows more : List Message) (m : Message)
    → find_message id rows ≡ some m
    → find_message id (rows ++ more) ≡ some m
unfolding find_message
find_message-append id [] more m h = ground arith
find_message-append id (n ∷ rows) more m h = ground (arith, find_message-append id rows more m)

pub first_none : (rows : List Message) → first rows ≡ none → rows ≡ []
first_none [] h = refl
first_none (m ∷ rows) h = ground arith

-- Where the request is there and has a reply, that reply is returned.
pub answered :
    (now id : ℕ) (a : Answer) (mail : Mail) (original m : Message)
    → get_message id mail ≡ some original
    → first (replies_to id mail) ≡ some m
    → answer_request now id a mail ≡ done ((some m, false), mail)
unfolding answer_request
answered now id a mail original m found existing = rw found (rw existing refl)

reply_draft :
    (m : Message) (a : Answer) (route : Route)
    → let d = signed (reply_fields m a route) in (d.kind ≡ "reply") × (d.reply_to ≡ some m.id)
unfolding reply_fields
reply_draft m a to_sender = (refl, refl)
reply_draft m a project_inbox = (refl, refl)
reply_draft m a vm_inbox = (refl, refl)

kind-reply :
    (d : Draft) (kind : Kind) → d.kind ≡ "reply" → check_draft d ≡ done kind → kind ≡ Kind.reply
unfolding check_draft read_kind
kind-reply d kind h e =
    let (k, found, rest) = bind-of (kind_or_raise (read_kind d.kind)) _ kind e in
    let same = checked-of (check_fields d k) k kind rest in
    let is_k : Kind.reply ≡ k =
      done_inj _ _ (ap (λ t. kind_or_raise (read_kind t)) (sym h) ∙ found) in
    sym (is_k ∙ same.0)

some_inj : {A : Type 0} (a b : A) → Path (Option A) (some a) (some b) → a ≡ b
some_inj a b h = ground arith

none-ne-some : {A : Type 0} (a : A) → Path (Option A) none (some a) → ⊥
none-ne-some a h = ground arith

pub get_message_lem :
    (id : ℕ) (mail : Mail) (m : Message)
    → get_message id mail ≡ some m
    → find_message id mail.messages ≡ some m
unfolding get_message
get_message_lem id mail m h = h

replies_lem :
    (id : ℕ) (m : Message) → m.kind ≡ Kind.reply → m.reply_to ≡ some id → replies id m ≡ true
replies_lem id m kind to = rw kind (rw to ((==_iff id id).1 refl))

-- The row of an answer is a reply to the request, and the only one.
sent_first :
    (now id : ℕ) (original m : Message) (a : Answer) (mail end : Mail) (registered : Bool)
    → original.id ≡ id
    → replies_to id mail ≡ []
    → send_message now (signed (reply_fields original a (route_of original))) mail
      ≡ done ((m, registered), end)
    → first (replies_to id end) ≡ some m
unfolding replies_to
sent_first now id original m a mail end registered same none_yet h =
    let d = signed (reply_fields original a (route_of original)) in
    let (kind, passed, row, after) = send_message-row now d mail end m registered h in
    let kept = reply_draft original a (route_of original) in
    let is_one : kind ≡ Kind.reply = kind-reply d kind kept.0 passed in
    let to_id : m.reply_to ≡ some id =
      ap (λ (r : Message). r.reply_to) row ∙ kept.1 ∙ ap some same in
    let sort : m.kind ≡ Kind.reply = ap (λ (r : Message). r.kind) row ∙ is_one in
    let found = replies_lem id m sort to_id in
    rw after (rw (filter-append (replies id) mail.messages (m ∷ [])) (rw none_yet (rw found refl)))

pub answer_first_once :
    (now id : ℕ) (original m : Message) (a : Answer) (mail end : Mail) (created : Bool)
    → original.id ≡ id
    → replies_to id mail ≡ []
    → get_message id mail ≡ some original
    → answer_first now original a mail ≡ done ((some m, created), end)
    → (get_message id end ≡ some original) × (first (replies_to id end) ≡ some m)
unfolding answer_first get_message
answer_first_once now id original m a mail end created same none_yet found h =
    let d = signed (reply_fields original a (route_of original)) in
    let (sent, e, rest) = bind-of (send_message now d mail) _ ((some m, created), end) h in
    let result = done_inj _ _ rest in
    let is_m : sent.0.0 ≡ m = some_inj _ _ (ap (λ r. r.0.0) result) in
    let is_end : sent.1 ≡ end = ap (λ r. r.1) result in
    let reply = sent_first now id original sent.0.0 a mail sent.1 sent.0.1 same none_yet e in
    let (_, _, _, after) = send_message-row now d mail sent.1 sent.0.0 sent.0.1 e in
    (
      rw⁻¹ is_end (rw after (find_message-append id mail.messages (sent.0.0 ∷ []) original found)),
      rw⁻¹ is_end (rw⁻¹ is_m reply),
    )

once_found :
    (now later id : ℕ) (a b : Answer) (mail end : Mail) (original m : Message) (created : Bool)
    (existing : Option Message)
    → get_message id mail ≡ some original
    → first (replies_to id mail) ≡ existing
    → answer_once now original a mail existing ≡ done ((some m, created), end)
    → answer_request later id b end ≡ done ((some m, false), end)
once_found now later id a b mail end original m created none found e h =
    let same = find_message-id id mail.messages original (get_message_lem id mail original found) in
    let (still, reply) =
      answer_first_once now id original m a mail end created same (first_none _ e) found h in
    answered later id b end original m still reply
once_found now later id a b mail end original m created (some r) found e h =
    let result = done_inj _ _ h in
    let is_m : r ≡ m = some_inj _ _ (ap (λ t. t.0.0) result) in
    let is_end : mail ≡ end = ap (λ t. t.1) result in
    rw⁻¹ is_end (answered later id b mail original m found (e ∙ ap some is_m))

answer_found_once :
    (now later id : ℕ) (a b : Answer) (mail end : Mail) (m : Message) (created : Bool)
    (found : Option Message)
    → get_message id mail ≡ found
    → answer_found now id a mail found ≡ done ((some m, created), end)
    → answer_request later id b end ≡ done ((some m, false), end)
answer_found_once now later id a b mail end m created none e h =
    absurd (none-ne-some m (ap (λ t. t.0.0) (done_inj _ _ h)))
answer_found_once now later id a b mail end m created (some original) e h =
    once_found now later id a b mail end original m created (first (replies_to id mail)) e refl h

-- Once a request has an answer, whoever answers it again gets that answer back and sends nothing.
pub answer_request-once :
    (now later id : ℕ) (a b : Answer) (mail end : Mail) (m : Message) (created : Bool)
    → answer_request now id a mail ≡ done ((some m, created), end)
    → answer_request later id b end ≡ done ((some m, false), end)
unfolding answer_request
answer_request-once now later id a b mail end m created h =
    answer_found_once now later id a b mail end m created (get_message id mail) refl h
