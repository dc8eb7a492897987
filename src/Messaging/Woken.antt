-- ===== src/Messaging/Woken.antt =====
-- About `next_wakeable` and `may_wake` of core/messaging.py.
use agent_notes.Prelude.{
  ℕ, String, ◌≡◌, ◌≢◌, refl, ap, Bool, true, false, Option, none, some, List, [], ◌∷◌, arith,
  Bool-cases, inl, inr, if◌then◌else◌, not, All, In, filter, ◌⊎◌, eq_iff,
}
use agent_notes.Messaging.{
  Message, Mail, Session, Trust, untrusted_input, never, WakePolicy, direct,
  any_direct_from_project,
}
use agent_notes.Messaging.Table.{take, is_text}
use agent_notes.Messaging.Claiming.{claim_as}
use agent_notes.Messaging.Waking.{
  may_wake, sender_trust, pending_wake, claim_row, claimed_or, wake_loop, next_wakeable,
  is_wake_for, policy_refusal, same_project,
}

-- A pending message that may wake the session.
abbrev Allowed : ℕ → Session → Option String → Mail → Message → Type 0
Allowed now s project mail n =
    In n mail.messages
    × (pending_wake now s n ≡ true)
    × (may_wake (some (s, project)) n (sender_trust n mail) ≡ true)

abbrev shown : Bool → Session → ℕ → Message → Message
shown claims s now n = if claims then claim_as s.session_key now n else n

abbrev Found : ℕ → Session → Option String → Bool → Mail → Message → Type 0
Found now s project claims mail m =
    (n : Message) × Allowed now s project mail n × (m ≡ shown claims s now n)

-- The session's policy lets the message wake it: any message, or one from the session's own project.
abbrev pub IsAllowed : Session → Option String → Message → Type 0
IsAllowed s project m =
    (s.wake_policy ≡ direct)
    ⊎ (s.wake_policy ≡ any_direct_from_project)
      × ((p : String) × (project ≡ some p) × (m.from_project ≡ some p))

same_project_lem :
    (project from_project : Option String)
    → same_project project from_project ≡ true
    → (p : String) × (project ≡ some p) × (from_project ≡ some p)
unfolding is_text
same_project_lem none f h = cc
same_project_lem (some p) none h = cc
same_project_lem (some p) (some q) h = (p, refl, ap some ((eq_iff q p).0 h))

policy_lem :
    (s : Session) (project : Option String) (m : Message) (policy : WakePolicy)
    → s.wake_policy ≡ policy
    → policy_refusal policy project m ≡ none
    → IsAllowed s project m
policy_lem s project m never q h = cc
policy_lem s project m direct q h = inl q
policy_lem s project m any_direct_from_project q h =
    elim (Bool-cases (same_project project m.from_project)) [
      | inl e ↦ inr (q, same_project_lem project m.from_project e)
      | inr e ↦ cc (rw e at h)
    ]

may_wake-policy :
    (s : Session) (project : Option String) (m : Message) (trust : Option Trust)
    → may_wake (some (s, project)) m trust ≡ true
    → policy_refusal s.wake_policy project m ≡ none
unfolding may_wake
may_wake-policy s project m trust h = ground arith

-- `may_wake` lets only a direct wake message for this session through, from no sender that is known
-- as untrusted, to a session whose policy allows it.
pub may_wake_safe :
    (s : Session) (project : Option String) (m : Message) (trust : Option Trust)
    → may_wake (some (s, project)) m trust ≡ true
    → (is_wake_for s m ≡ true) × (trust ≢ some untrusted_input) × IsAllowed s project m
unfolding may_wake
may_wake_safe s project m trust h =
    let allowed = policy_lem s project m s.wake_policy refl (may_wake-policy s project m trust h) in
    (ground arith, λ e. ground arith, allowed)

refused-of :
    (allowed : Bool) (n : Message) (mail : Mail) (rest claimed : Option Message × Mail)
    → (if not allowed
        then rest
        else if not false
        then (some n, mail)
        else claimed_or claimed rest).0
      ≡ none
    → (allowed ≡ false) × (rest.0 ≡ none)
refused-of false n mail rest claimed h = (refl, h)
refused-of true n mail rest claimed h = ground arith

wake_loop-none :
    (held : ℕ → Bool) (now : ℕ) (s : Session) (project : Option String) (mail : Mail)
    (rows : List Message)
    → (wake_loop held now s project false mail rows).0 ≡ none
    → All (λ m. may_wake (some (s, project)) m (sender_trust m mail) ≡ false) rows
unfolding wake_loop
wake_loop-none held now s project mail [] e = tt
wake_loop-none held now s project mail (m ∷ rows) e =
    let (refused, later) =
      refused-of (may_wake (some (s, project)) m (sender_trust m mail)) m mail
        (wake_loop held now s project false mail rows) (claim_row held now s m.id mail) e in
    (refused, wake_loop-none held now s project mail rows later)

-- Where a look finds nothing, each of the 50 oldest pending messages is refused.
pub next_wakeable_complete :
    (held : ℕ → Bool) (now : ℕ) (s : Session) (project : Option String) (mail : Mail)
    → (next_wakeable held now s project false mail).0 ≡ none
    → All
        (λ m. may_wake (some (s, project)) m (sender_trust m mail) ≡ false)
        (take 50 (filter (pending_wake now s) mail.messages))
unfolding next_wakeable
next_wakeable_complete held now s project mail =
    wake_loop-none held now s project mail (take 50 (filter (pending_wake now s) mail.messages))
