-- ===== src/Messaging/Invariant/Steps.antt =====
-- The calls of core/messaging.py as steps, and the invariant along them.
use agent_notes.Prelude.{
  ℕ, String, ◌≡◌, refl, ap, Bool, true, false, Option, none, some, List, [], ◌∷◌, In, All, arith,
  if◌then◌else◌, not,
}
use agent_notes.Messaging.{Message, Mail, Session, Trust, done}
use agent_notes.Messaging.Sessions.{
  Registration, register_session, set_session_policy, set_paseo_agent_id, bump_auto_continue,
  reset_auto_continue,
}
use agent_notes.Messaging.Sending.{Draft, send_message}
use agent_notes.Messaging.Replies.{Answer, Route, reply_message, answer_request}
use agent_notes.Messaging.Claiming.{
  claimer, addressee, matches, inbox, taken_if, claim_deliverable, deliverable, claim_requests,
  claim_message, release_claims, prune,
}
use agent_notes.Messaging.Waking.{
  claimed_or, claim_row, next_wakeable, wake_loop, may_wake, sender_trust, pending_wake,
}
use agent_notes.Messaging.Invariant.{All-take, All-self, IsMailSound, All-filter}
use agent_notes.Messaging.Invariant.Sends.{
  bind-of, done_inj, send_message-IsMailSound, reply_message-IsMailSound,
  answer_request-IsMailSound,
}
use agent_notes.Messaging.Invariant.Claims.{
  claim-IsMailSound, may_claim, claim_row-IsMailSound, claim_requests-IsMailSound,
  claim_message-IsMailSound, release_claims-IsMailSound,
}
use agent_notes.Messaging.Invariant.Presence.{
  register_session-IsMailSound, set_session_policy-IsMailSound, set_paseo_agent_id-IsMailSound,
  bump_auto_continue-IsMailSound, reset_auto_continue-IsMailSound, prune-IsMailSound,
}

-- One call that returned, from the mailbox `mail` to the mailbox `end`.
pub data MailStep (mail end : Mail) : Type 0 where
  register_session_step :
      (now : ℕ) (r : Registration) (s : Option Session)
      → register_session now r mail ≡ done (s, end)
      → MailStep mail end
  set_session_policy_step :
      (key : String) (policy trust : Option String) (s : Option Session)
      → set_session_policy key policy trust mail ≡ done (s, end)
      → MailStep mail end
  set_paseo_agent_id_step :
      (key : String) (agent : Option String) (s : Option Session)
      → set_paseo_agent_id key agent mail ≡ done (s, end)
      → MailStep mail end
  bump_auto_continue_step :
      (now window : ℕ) (key : String) (s : Option Session)
      → bump_auto_continue now window key mail ≡ done (s, end)
      → MailStep mail end
  reset_auto_continue_step : (key : String) → reset_auto_continue key mail ≡ end → MailStep mail end
  send_message_step :
      (now : ℕ) (d : Draft) (m : Message) (registered : Bool)
      → send_message now d mail ≡ done ((m, registered), end)
      → MailStep mail end
  reply_step :
      (now id : ℕ) (a : Answer) (result : Message × Route)
      → reply_message now id a mail ≡ done (result, end)
      → MailStep mail end
  answer_request_step :
      (now id : ℕ) (a : Answer) (result : Option Message × Bool)
      → answer_request now id a mail ≡ done (result, end)
      → MailStep mail end
  inbox_step :
      (held : ℕ → Bool) (this_vm : String) (session : Option String) (claims include_claimed : Bool)
      (vm project : Option String) (workspace_id : Option ℕ) (limit now : ℕ) (rows : List Message)
      → inbox held this_vm session claims include_claimed vm project workspace_id limit now mail
        ≡ done (rows, end)
      → MailStep mail end
  claim_deliverable_step :
      (held : ℕ → Bool) (session : String) (direct_only wake_only : Bool) (limit now : ℕ)
      (rows : List Message)
      → claim_deliverable held session direct_only wake_only limit now mail ≡ done (rows, end)
      → MailStep mail end
  claim_requests_step :
      (held : ℕ → Bool) (vm : String) (limit : ℕ) (who : Option String) (now : ℕ)
      (rows : List Message)
      → claim_requests held vm limit who now mail ≡ (rows, end)
      → MailStep mail end
  claim_message_step :
      (held : ℕ → Bool) (id : ℕ) (who : String) (now : ℕ) (m : Option Message)
      → claim_message held id who now mail ≡ (m, end)
      → MailStep mail end
  next_wakeable_step :
      (held : ℕ → Bool) (now : ℕ) (s : Session) (project : Option String) (claims : Bool)
      (m : Option Message)
      → next_wakeable held now s project claims mail ≡ (m, end)
      → MailStep mail end
  release_claims_step :
      (ids : List ℕ) (who : String) (n : ℕ)
      → release_claims ids who mail ≡ (n, end)
      → MailStep mail end
  prune_step : (now : ℕ) → prune now mail ≡ end → MailStep mail end

-- Any number of calls, each a transaction of its own.
pub data MailRun (mail : Mail) : Mail → Type 0 where
  idle : MailRun mail mail
  later :
      {middle : Mail} (end : Mail) → MailRun mail middle → MailStep middle end → MailRun mail end

claim_deliverable-IsMailSound :
    (held : ℕ → Bool) (session : String) (direct_only wake_only : Bool) (limit now : ℕ)
    (mail end : Mail) (rows : List Message)
    → IsMailSound mail
    → claim_deliverable held session direct_only wake_only limit now mail ≡ done (rows, end)
    → IsMailSound end
unfolding claim_deliverable
claim_deliverable-IsMailSound held session direct_only wake_only limit now mail end rows h e =
    let (who, _, e1) = bind-of (addressee "" (some session) none none none mail) _ (rows, end) e in
    rw⁻¹ (ap (λ t. t.1) (done_inj _ _ e1)) (
      claim-IsMailSound held (deliverable who direct_only wake_only now) (claimer who) limit now
        mail h)

taken-IsMailSound :
    (held : ℕ → Bool) (p : Message → Bool) (who : String) (limit now : ℕ) (mail : Mail)
    (claims : Bool)
    → IsMailSound mail
    → IsMailSound (taken_if claims held p who limit now mail).1
taken-IsMailSound held p who limit now mail true h = claim-IsMailSound held p who limit now mail h
taken-IsMailSound held p who limit now mail false h = h

inbox-IsMailSound :
    (held : ℕ → Bool) (this_vm : String) (session : Option String) (claims include_claimed : Bool)
    (vm project : Option String) (workspace_id : Option ℕ) (limit now : ℕ) (mail end : Mail)
    (rows : List Message)
    → IsMailSound mail
    → inbox held this_vm session claims include_claimed vm project workspace_id limit now mail
      ≡ done (rows, end)
    → IsMailSound end
unfolding inbox
inbox-IsMailSound held this_vm session claims include_claimed vm project workspace_id limit now mail
      end rows h e =
    let (who, _, e1) =
      bind-of (addressee this_vm session vm project workspace_id mail) _ (rows, end) e in
    rw⁻¹ (ap (λ t. t.1) (done_inj _ _ e1))
      (taken-IsMailSound held (matches who false true now) (claimer who) limit now mail claims h)

may_wake-may_claim :
    (s : Session) (project : Option String) (m : Message) (trust : Option Trust)
    → may_wake (some (s, project)) m trust ≡ true
    → may_claim m ≡ true
unfolding may_wake
may_wake-may_claim s project m trust h = ground arith

claimed_or-IsMailSound :
    (claimed rest : Option Message × Mail)
    → IsMailSound claimed.1
    → IsMailSound rest.1
    → IsMailSound (claimed_or claimed rest).1
claimed_or-IsMailSound (none, after) rest hc hr = hr
claimed_or-IsMailSound (some m, after) rest hc hr = hc

branches-IsMailSound :
    (allowed claims : Bool) (m : Message) (mail : Mail) (rest claimed : Option Message × Mail)
    → IsMailSound rest.1
    → IsMailSound mail
    → (allowed ≡ true → IsMailSound claimed.1)
    → IsMailSound (if not allowed then rest else if not claims then (some m, mail) else claimed).1
branches-IsMailSound false claims m mail rest claimed hr h hc = hr
branches-IsMailSound true false m mail rest claimed hr h hc = h
branches-IsMailSound true true m mail rest claimed hr h hc = hc refl

wake_loop-IsMailSound :
    (held : ℕ → Bool) (now : ℕ) (s : Session) (project : Option String) (claims : Bool)
    (mail : Mail) (rows : List Message)
    → All (λ m. In m mail.messages) rows
    → IsMailSound mail
    → IsMailSound (wake_loop held now s project claims mail rows).1
unfolding wake_loop
wake_loop-IsMailSound held now s project claims mail [] here h = h
wake_loop-IsMailSound held now s project claims mail (m ∷ rows) here h =
    let rest = wake_loop-IsMailSound held now s project claims mail rows here.1 h in
    let trust = sender_trust m mail in
    branches-IsMailSound (may_wake (some (s, project)) m trust) claims m mail
      (wake_loop held now s project claims mail rows)
      (claimed_or (claim_row held now s m.id mail) (wake_loop held now s project claims mail rows))
      rest h
      (λ allowed.
        claimed_or-IsMailSound (claim_row held now s m.id mail) _
          (claim_row-IsMailSound held now s m mail here.0
            (may_wake-may_claim s project m trust allowed) h)
          rest)

next_wakeable-IsMailSound :
    (held : ℕ → Bool) (now : ℕ) (s : Session) (project : Option String) (claims : Bool)
    (mail : Mail)
    → IsMailSound mail
    → IsMailSound (next_wakeable held now s project claims mail).1
unfolding next_wakeable
next_wakeable-IsMailSound held now s project claims mail h =
    let here =
      All-filter (λ m. In m mail.messages) (pending_wake now s) mail.messages
        (All-self mail.messages) in
    wake_loop-IsMailSound held now s project claims mail _ (All-take _ 50 _ here) h

MailStep-IsMailSound : (mail end : Mail) → IsMailSound mail → MailStep mail end → IsMailSound end
MailStep-IsMailSound mail end h (register_session_step now r s e) =
    register_session-IsMailSound now r mail end s h e
MailStep-IsMailSound mail end h (set_session_policy_step key policy trust s e) =
    set_session_policy-IsMailSound key policy trust mail end s h e
MailStep-IsMailSound mail end h (set_paseo_agent_id_step key agent s e) =
    set_paseo_agent_id-IsMailSound key agent mail end s h e
MailStep-IsMailSound mail end h (bump_auto_continue_step now window key s e) =
    bump_auto_continue-IsMailSound now window key mail end s h e
MailStep-IsMailSound mail end h (reset_auto_continue_step key e) =
    rw⁻¹ e (reset_auto_continue-IsMailSound key mail h)
MailStep-IsMailSound mail end h (send_message_step now d m registered e) =
    send_message-IsMailSound now d mail end m registered h e
MailStep-IsMailSound mail end h (reply_step now id a result e) =
    reply_message-IsMailSound now id a mail end result h e
MailStep-IsMailSound mail end h (answer_request_step now id a result e) =
    answer_request-IsMailSound now id a mail end result h e
MailStep-IsMailSound mail end h
      (inbox_step held this_vm session claims include_claimed vm project workspace_id limit now rows
        e) =
    inbox-IsMailSound held this_vm session claims include_claimed vm project workspace_id limit now
      mail end rows h e
MailStep-IsMailSound mail end h
      (claim_deliverable_step held session direct_only wake_only limit now rows e) =
    claim_deliverable-IsMailSound held session direct_only wake_only limit now mail end rows h e
MailStep-IsMailSound mail end h (claim_requests_step held vm limit who now rows e) =
    rw⁻¹ (ap (λ r. r.1) e) (claim_requests-IsMailSound held vm limit who now mail h)
MailStep-IsMailSound mail end h (claim_message_step held id who now m e) =
    rw⁻¹ (ap (λ r. r.1) e) (claim_message-IsMailSound held id who now mail h)
MailStep-IsMailSound mail end h (next_wakeable_step held now s project claims m e) =
    rw⁻¹ (ap (λ r. r.1) e) (next_wakeable-IsMailSound held now s project claims mail h)
MailStep-IsMailSound mail end h (release_claims_step ids who n e) =
    rw⁻¹ (ap (λ r. r.1) e) (release_claims-IsMailSound ids who mail h)
MailStep-IsMailSound mail end h (prune_step now e) = rw⁻¹ e (prune-IsMailSound now mail h)

-- Whatever calls ran from a sound mailbox, every row passes the CHECK constraints of its table, only
-- direct messages wake, no notice is claimed, ids are unique and in order, and a session's wake
-- policy is its default unless it was set.
pub MailRun-IsMailSound : (mail end : Mail) → IsMailSound mail → MailRun mail end → IsMailSound end
MailRun-IsMailSound mail end h idle = h
MailRun-IsMailSound mail _ h (later {middle} end before step) =
    MailStep-IsMailSound middle end (MailRun-IsMailSound mail middle h before) step
