-- ===== src/Messaging/Waking.antt =====
-- Waking: `wake_refusal`, `may_wake`, `next_wakeable`.
use agent_notes.Prelude.{
  ℕ, String, Bool, false, not, Option, none, some, List, [], ◌∷◌, ◌&&◌, ◌||◌, ltb, if◌then◌else◌,
  filter, ◌==◌,
}
use agent_notes.Messaging.{
  WakePolicy, never, direct, any_direct_from_project, Trust, Session, Message, Mail, is_some,
}
use agent_notes.Messaging.Table.{take, is_text, get_session, update_where, returning}
use agent_notes.Messaging.Sending.{is_notice, is_request, is_untrusted}
use agent_notes.Messaging.Claiming.{unclaimed, claim_as, head}

pub data Refusal : Type 0 where
  unregistered not_for_session untrusted_sender other_project policy_forbids : Refusal

abbrev from_untrusted : Option Trust → Bool
from_untrusted none = false
from_untrusted (some t) = is_untrusted t

abbrev pub same_project : Option String → Option String → Bool
same_project none from_project = false
same_project (some p) from_project = is_text p from_project

-- A direct wake message for the session.
abbrev pub is_wake_for : Session → Message → Bool
is_wake_for s m =
    m.wake
    && is_text s.session_key m.to_session
    && not (is_request m.kind)
    && not (is_notice m.kind)

abbrev pub policy_refusal : WakePolicy → Option String → Message → Option Refusal
policy_refusal never project m = some policy_forbids
policy_refusal direct project m = none
policy_refusal any_direct_from_project project m =
    if same_project project m.from_project then none else some other_project

-- `wake_refusal`; the session comes with its project's slug.
unfoldable pub wake_refusal :
    Option (Session × Option String) → Message → Option Trust → Option Refusal
unfolding is_text
wake_refusal none m sender_trust = some unregistered
wake_refusal (some (s, project)) m sender_trust =
    if not (is_wake_for s m)
    then some not_for_session
    else if from_untrusted sender_trust
    then some untrusted_sender
    else policy_refusal s.wake_policy project m

unfoldable pub may_wake : Option (Session × Option String) → Message → Option Trust → Bool
unfolding wake_refusal
may_wake session m sender_trust = not (is_some (wake_refusal session m sender_trust))

-- `LEFT JOIN agent_sessions snd ON snd.session_key = m.from_session`
unfoldable pub sender_trust : Message → Mail → Option Trust
unfolding get_session
sender_trust m mail = elim m.from_session [
  | none ↦ none
  | some key ↦ elim (get_session key mail) [ none ↦ none | some s ↦ some s.trust ]
]

abbrev pub pending_wake : ℕ → Session → Message → Bool
pending_wake now s m =
    is_text s.session_key m.to_session
    && unclaimed m
    && m.wake
    && not (is_request m.kind || is_notice m.kind)
    && ltb now m.expires_at

abbrev pub free_row : (ℕ → Bool) → ℕ → Message → Bool
free_row held id m = m.id == id && unclaimed m && not (held m.id)

-- The UPDATE of one row for the session.
unfoldable pub claim_row : (ℕ → Bool) → ℕ → Session → ℕ → Mail → Option Message × Mail
unfolding update_where returning
claim_row held now s id mail = (
  head (returning (free_row held id) (claim_as s.session_key now) mail.messages),
  record mail {
    messages = update_where (free_row held id) (claim_as s.session_key now) mail.messages;
  },
)

-- `if claimed is not None: break`
abbrev pub claimed_or : Option Message × Mail → Option Message × Mail → Option Message × Mail
claimed_or (none, after) rest = rest
claimed_or (some m, after) rest = (some m, after)

-- The loop over the selected rows.
unfoldable pub wake_loop :
    (ℕ → Bool) → ℕ → Session → Option String → Bool → Mail → List Message → Option Message × Mail
unfolding may_wake sender_trust claim_row
wake_loop held now s project claims mail [] = (none, mail)
wake_loop held now s project claims mail (m ∷ rows) =
    let rest = wake_loop held now s project claims mail rows in
    if not (may_wake (some (s, project)) m (sender_trust m mail))
    then rest
    else if not claims
    then (some m, mail)
    else claimed_or (claim_row held now s m.id mail) rest

-- `next_wakeable`; the caller passes the session's row with the slug of its project.
unfoldable pub next_wakeable :
    (ℕ → Bool) → ℕ → Session → Option String → Bool → Mail → Option Message × Mail
unfolding wake_loop take is_text
next_wakeable held now s project claims mail =
    wake_loop held now s project claims mail (take 50 (filter (pending_wake now s) mail.messages))
