-- ===== src/Messaging/Invariant/Sends.antt =====
-- The invariant and the calls of core/messaging.py that send.
use agent_notes.Prelude.{
  ℕ, String, ◌≡◌, refl, ap, ◌+◌, ◌<◌, Bool, true, false, Option, none, some, [], ◌∷◌, All-append,
  arith, not, ◌&&◌, ◌||◌, sym,
}
use agent_notes.Messaging.{
  Message, Mail, Kind, Outcome, done, raised, is_some, ◌>>=◌, guard, MessagingError, ◌>>◌,
  untrusted_request, no_original,
}
use agent_notes.Messaging.Sending.{
  Draft, check_draft, check_address, new_message, insert_message, send_message, read_kind,
  check_fields, kind_or_raise, is_registered, may_request, refers,
}
use agent_notes.Messaging.Replies.{
  answer_first, answer_once, answer_found, signed, first, replies_to, original_of, reply_message,
  answer_request, Answer, Route, original_of, reply_fields, route_of,
}
use agent_notes.Messaging.Table.{get_message}
use agent_notes.Messaging.Invariant.{
  IsStored, checks, promises, IsMailSound, All-mono, append-IsAscending, is_notice,
}

address-checks :
    (to_session to_project to_vm : Option String) (kind : Kind)
    → check_address to_session to_project to_vm kind ≡ done tt
    → (is_some to_session || is_some to_project || is_some to_vm)
        && (not (is_some to_session) || not (is_some to_project || is_some to_vm))
        && (not (is_notice kind) || not (is_some to_session))
      ≡ true
unfolding check_address
address-checks (some s) to_project to_vm kind h = ground arith
address-checks none to_project to_vm kind h = ground arith

fields-checks :
    (id now : ℕ) (kind : Kind) (d : Draft)
    → check_fields d kind ≡ done tt
    → (checks (new_message id now kind d) ≡ true) × (promises (new_message id now kind d) ≡ true)
unfolding check_fields checks promises
fields-checks id now kind d h =
    ground (arith, address-checks d.to_session d.to_project d.to_vm kind)

pub checked-of :
    (o : Outcome (Unit {0})) (k kind : Kind)
    → (o >> done k) ≡ done kind
    → (k ≡ kind) × (o ≡ done tt)
checked-of (done tt) k kind h = (ground arith, refl)
checked-of (raised e) k kind h = ground arith

kind-of :
    (o : Option Kind) (c : Kind → Outcome (Unit {0})) (kind : Kind)
    → (kind_or_raise o >>= λ k. c k >> done k) ≡ done kind
    → c kind ≡ done tt
kind-of none c kind h = ground arith
kind-of (some k) c kind h = let (same, passed) = checked-of (c k) k kind h in rw⁻¹ same passed

-- A draft that passes the checks is a row that the table takes.
check_draft-checks :
    (id now : ℕ) (kind : Kind) (d : Draft)
    → check_draft d ≡ done kind
    → (checks (new_message id now kind d) ≡ true) × (promises (new_message id now kind d) ≡ true)
unfolding check_draft
check_draft-checks id now kind d h =
    fields-checks id now kind d (kind-of (read_kind d.kind) (check_fields d) kind h)

insert_message-IsMailSound :
    (m : Message) (mail : Mail)
    → IsMailSound mail
    → m.id ≡ mail.next_id
    → checks m ≡ true
    → promises m ≡ true
    → IsMailSound (insert_message m mail)
insert_message-IsMailSound m mail h same c p =
    let older =
      All-mono (IsStored mail.next_id) (IsStored (mail.next_id + 1))
        (λ n k. (k.0, k.1, ground arith)) mail.messages h.0 in
    let below =
      All-mono (IsStored mail.next_id) (λ (n : Message). n.id < m.id) (λ n k. rw same k.2)
        mail.messages h.0 in
    (
      All-append (IsStored (mail.next_id + 1)) mail.messages (m ∷ []) older
          ((c, p, ground arith), tt),
      append-IsAscending m mail.messages h.1 below,
      h.2,
    )

sent-of :
    {A : Type 0} (allowed refers : Bool) (e1 e2 : MessagingError) (x y : A)
    → (guard allowed e1 >> (guard refers e2 >> done x)) ≡ done y
    → (allowed ≡ true) × (refers ≡ true) × (x ≡ y)
sent-of true true e1 e2 x y h = (refl, refl, ground arith)
sent-of true false e1 e2 x y h = ground arith
sent-of false refers e1 e2 x y h = ground arith

pub bind-of :
    {A B : Type 0} (o : Outcome A) (f : A → Outcome B) (b : B)
    → (o >>= f) ≡ done b
    → (a : A) × (o ≡ done a) × (f a ≡ done b)
bind-of (done a) f b h = (a, refl, h)
bind-of (raised e) f b h = ground arith

-- What `send_message` returns is the row that it inserted, at the next id.
pub send_message-row :
    (now : ℕ) (d : Draft) (mail end : Mail) (m : Message) (registered : Bool)
    → send_message now d mail ≡ done ((m, registered), end)
    → (kind : Kind) × (check_draft d ≡ done kind)
      × (m ≡ new_message mail.next_id now kind d)
      × (end ≡ insert_message m mail)
unfolding send_message
send_message-row now d mail end m registered h =
    let (kind, passed, rest) = bind-of (check_draft d) _ ((m, registered), end) h in
    let row = new_message mail.next_id now kind d in
    let result : (Message × Bool) × Mail =
      ((row, is_registered d.to_session mail), insert_message row mail) in
    let (_, _, same) =
      sent-of (may_request kind d mail) (refers d.reply_to mail) untrusted_request no_original
        result ((m, registered), end) rest in
    let is_row : row ≡ m = ap (λ r. r.0.0) same in
    (kind, passed, sym is_row, rw⁻¹ is_row (sym (ap (λ r. r.1) same)))

pub send_message-IsMailSound :
    (now : ℕ) (d : Draft) (mail end : Mail) (m : Message) (registered : Bool)
    → IsMailSound mail
    → send_message now d mail ≡ done ((m, registered), end)
    → IsMailSound end
send_message-IsMailSound now d mail end m registered h e =
    let (kind, passed, row, after) = send_message-row now d mail end m registered e in
    let (c, p) = check_draft-checks mail.next_id now kind d passed in
    rw after
      (insert_message-IsMailSound m mail h (ap (λ (r : Message). r.id) row) (rw row c) (rw row p))

pub done_inj : {A : Type 0} (a b : A) → Path (Outcome A) (done a) (done b) → a ≡ b
done_inj a b h = ground arith

sent-IsMailSound :
    (now : ℕ) (d : Draft) (mail : Mail) (sent : (Message × Bool) × Mail)
    → IsMailSound mail
    → send_message now d mail ≡ done sent
    → (end : Mail) → sent.1 ≡ end
    → IsMailSound end
sent-IsMailSound now d mail sent h e end same =
    rw⁻¹ same (send_message-IsMailSound now d mail sent.1 sent.0.0 sent.0.1 h e)

pub reply_message-IsMailSound :
    (now id : ℕ) (a : Answer) (mail end : Mail) (result : Message × Route)
    → IsMailSound mail
    → reply_message now id a mail ≡ done (result, end)
    → IsMailSound end
unfolding reply_message
reply_message-IsMailSound now id a mail end result h e =
    let (m, found, e1) = bind-of (original_of (get_message id mail)) _ (result, end) e in
    let d = reply_fields m a (route_of m) in
    let (sent, e2, e3) = bind-of (send_message now d mail) _ (result, end) e1 in
    sent-IsMailSound now d mail sent h e2 end (ap (λ r. r.1) (done_inj _ _ e3))

answer_first-IsMailSound :
    (now : ℕ) (m : Message) (a : Answer) (mail end : Mail) (result : Option Message × Bool)
    → IsMailSound mail
    → answer_first now m a mail ≡ done (result, end)
    → IsMailSound end
unfolding answer_first
answer_first-IsMailSound now m a mail end result h e =
    let d = signed (reply_fields m a (route_of m)) in
    let (sent, e2, e3) = bind-of (send_message now d mail) _ (result, end) e in
    sent-IsMailSound now d mail sent h e2 end (ap (λ r. r.1) (done_inj _ _ e3))

kept-IsMailSound :
    {A : Type 0} (mail end : Mail) (a b : A)
    → IsMailSound mail
    → Path (Outcome (A × Mail)) (done (a, mail)) (done (b, end))
    → IsMailSound end
kept-IsMailSound mail end a b h e = rw⁻¹ (ap (λ r. r.1) (done_inj _ _ e)) h

answer_once-IsMailSound :
    (now : ℕ) (m : Message) (a : Answer) (mail end : Mail) (result : Option Message × Bool)
    (existing : Option Message)
    → IsMailSound mail
    → answer_once now m a mail existing ≡ done (result, end)
    → IsMailSound end
answer_once-IsMailSound now m a mail end result none h e =
    answer_first-IsMailSound now m a mail end result h e
answer_once-IsMailSound now m a mail end result (some r) h e =
    kept-IsMailSound mail end (some r, false) result h e

answer_found-IsMailSound :
    (now id : ℕ) (a : Answer) (mail end : Mail) (result : Option Message × Bool)
    (found : Option Message)
    → IsMailSound mail
    → answer_found now id a mail found ≡ done (result, end)
    → IsMailSound end
answer_found-IsMailSound now id a mail end result none h e =
    kept-IsMailSound mail end (none, false) result h e
answer_found-IsMailSound now id a mail end result (some m) h e =
    answer_once-IsMailSound now m a mail end result (first (replies_to id mail)) h e

pub answer_request-IsMailSound :
    (now id : ℕ) (a : Answer) (mail end : Mail) (result : Option Message × Bool)
    → IsMailSound mail
    → answer_request now id a mail ≡ done (result, end)
    → IsMailSound end
unfolding answer_request
answer_request-IsMailSound now id a mail end result h e =
    answer_found-IsMailSound now id a mail end result (get_message id mail) h e
