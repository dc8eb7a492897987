-- ===== src/Messaging/Invariant/Presence.antt =====
-- The invariant, the calls of core/messaging.py on sessions, and `prune`.
use agent_notes.Prelude.{
  ℕ, String, ◌≡◌, refl, ap, Bool, true, false, Option, List, [], ◌∷◌, All, arith, Bool-cases, inl,
  inr, if◌then◌else◌, str_eq,
}
use agent_notes.Messaging.{
  Message, Mail, Session, Project, Trust, WakePolicy, done, raised, is_some, not_registered,
  unknown_policy, unknown_trust,
}
use agent_notes.Messaging.Table.{update_where, get_session}
use agent_notes.Messaging.Keys.{session_key}
use agent_notes.Messaging.Sessions.{
  Registration, register_session, upsert_session, refreshed, fresh_session, update_session, keyed,
  with_policy, with_agent, bumped, cleared, set_session_policy, set_paseo_agent_id,
  bump_auto_continue, reset_auto_continue, read_policy, read_trust, optional,
}
use agent_notes.Messaging.Claiming.{prune, forget_reply}
use agent_notes.Messaging.Invariant.{
  IsStored, checks, promises, keeps_default, IsMailSound, All-update_where, All-filter, All-map,
  filter-IsAscending, map-IsAscending,
}
use agent_notes.Messaging.Invariant.Sends.{bind-of, done_inj}

abbrev KeepsDefault : Session → Type 0
KeepsDefault s = keeps_default s ≡ true

fresh-KeepsDefault :
    (key : String) (now : ℕ) (trust : Option Trust) (r : Registration)
    → KeepsDefault (fresh_session key now trust r)
unfolding keeps_default
fresh-KeepsDefault key now trust r = ground arith

-- A policy that was set stays; any other is computed again from the agent.
refreshed-KeepsDefault :
    (projects : List Project) (now : ℕ) (trust : Option Trust) (r : Registration) (s : Session)
    → KeepsDefault s
    → KeepsDefault (refreshed projects now trust r s)
unfolding keeps_default refreshed
refreshed-KeepsDefault projects now trust r s h = ground arith

upsert_session-KeepsDefault :
    (key : String) (projects : List Project) (now : ℕ) (trust : Option Trust) (r : Registration)
    (rows : List Session)
    → All KeepsDefault rows
    → All KeepsDefault (upsert_session key projects now trust r rows)
unfolding upsert_session
upsert_session-KeepsDefault key projects now trust r [] h = (fresh-KeepsDefault key now trust r, tt)
upsert_session-KeepsDefault key projects now trust r (s ∷ rows) h =
    let rest = upsert_session-KeepsDefault key projects now trust r rows h.1 in
    let new = refreshed-KeepsDefault projects now trust r s h.0 in
    elim (Bool-cases (str_eq s.session_key key)) [
      | inl e ↦ rw e (new, h.1)
      | inr e ↦ rw e (h.0, rest)
    ]

pub register_session-IsMailSound :
    (now : ℕ) (r : Registration) (mail end : Mail) (result : Option Session)
    → IsMailSound mail
    → register_session now r mail ≡ done (result, end)
    → IsMailSound end
unfolding register_session
register_session-IsMailSound now r mail end result h e =
    let (key, _, e1) = bind-of (session_key r.vm r.harness r.session_id) _ (result, end) e in
    let (trust, _, e2) = bind-of (optional read_trust unknown_trust r.trust) _ (result, end) e1 in
    rw⁻¹ (ap (λ t. t.1) (done_inj _ _ e2))
      (h.0, h.1, upsert_session-KeepsDefault key mail.projects now trust r mail.sessions h.2)

pub updated-of :
    (test : Bool) (x y : Option Session × Mail)
    → (if test then done x else raised not_registered) ≡ done y
    → x ≡ y
updated-of true x y h = ground arith
updated-of false x y h = ground arith

module _ (f : Session → Session) (keeps : (s : Session) → KeepsDefault s → KeepsDefault (f s)) where
  updated-IsMailSound :
      (key : String) (mail : Mail)
      → IsMailSound mail
      → IsMailSound (record mail { sessions = update_where (keyed key) f mail.sessions })
  updated-IsMailSound key mail h =
      (h.0, h.1, All-update_where KeepsDefault (keyed key) f (λ s k e. keeps s k) mail.sessions h.2)

  update_session-IsMailSound :
      (key : String) (mail end : Mail) (result : Option Session)
      → IsMailSound mail
      → update_session key f mail ≡ done (result, end)
      → IsMailSound end
  unfolding update_session
  update_session-IsMailSound key mail end result h e =
      let after : Mail = record mail { sessions = update_where (keyed key) f mail.sessions } in
      let same =
        updated-of (is_some (get_session key mail)) (get_session key after, after) (result, end)
          e in
      rw⁻¹ (ap (λ t. t.1) same) (updated-IsMailSound key mail h)

with_policy-KeepsDefault :
    (policy : Option WakePolicy) (trust : Option Trust) (s : Session)
    → KeepsDefault s
    → KeepsDefault (with_policy policy trust s)
unfolding keeps_default
with_policy-KeepsDefault policy trust s h = ground arith

with_agent-KeepsDefault :
    (agent : Option String) (s : Session) → KeepsDefault s → KeepsDefault (with_agent agent s)
unfolding keeps_default
with_agent-KeepsDefault agent s h = ground arith

bumped-KeepsDefault :
    (now window : ℕ) (s : Session) → KeepsDefault s → KeepsDefault (bumped now window s)
unfolding keeps_default
bumped-KeepsDefault now window s h = h

pub set_session_policy-IsMailSound :
    (key : String) (policy trust : Option String) (mail end : Mail) (result : Option Session)
    → IsMailSound mail
    → set_session_policy key policy trust mail ≡ done (result, end)
    → IsMailSound end
unfolding set_session_policy
set_session_policy-IsMailSound key policy trust mail end result h e =
    let (p, _, e1) = bind-of (optional read_policy unknown_policy policy) _ (result, end) e in
    let (t, _, e2) = bind-of (optional read_trust unknown_trust trust) _ (result, end) e1 in
    update_session-IsMailSound (with_policy p t) (with_policy-KeepsDefault p t) key mail end result
      h e2

pub set_paseo_agent_id-IsMailSound :
    (key : String) (agent : Option String) (mail end : Mail) (result : Option Session)
    → IsMailSound mail
    → set_paseo_agent_id key agent mail ≡ done (result, end)
    → IsMailSound end
unfolding set_paseo_agent_id
set_paseo_agent_id-IsMailSound key agent =
    update_session-IsMailSound (with_agent agent) (with_agent-KeepsDefault agent) key

pub bump_auto_continue-IsMailSound :
    (now window : ℕ) (key : String) (mail end : Mail) (result : Option Session)
    → IsMailSound mail
    → bump_auto_continue now window key mail ≡ done (result, end)
    → IsMailSound end
unfolding bump_auto_continue
bump_auto_continue-IsMailSound now window key =
    update_session-IsMailSound (bumped now window) (bumped-KeepsDefault now window) key

cleared-KeepsDefault : (s : Session) → KeepsDefault s → KeepsDefault (cleared s)
unfolding keeps_default
cleared-KeepsDefault s h = h

pub reset_auto_continue-IsMailSound :
    (key : String) (mail : Mail) → IsMailSound mail → IsMailSound (reset_auto_continue key mail)
unfolding reset_auto_continue
reset_auto_continue-IsMailSound = updated-IsMailSound cleared cleared-KeepsDefault

forget_reply-IsStored :
    (next : ℕ) (gone : List ℕ) (m : Message) → IsStored next m → IsStored next (forget_reply gone m)
unfolding checks promises
forget_reply-IsStored next gone m h = h

pub prune-IsMailSound : (now : ℕ) (mail : Mail) → IsMailSound mail → IsMailSound (prune now mail)
unfolding prune
prune-IsMailSound now mail h = (
  All-map (IsStored mail.next_id) _ (forget_reply-IsStored mail.next_id _) _
      (All-filter (IsStored mail.next_id) _ mail.messages h.0),
  map-IsAscending _ (λ m. refl) _ (filter-IsAscending _ mail.messages h.1),
  All-filter KeepsDefault _ mail.sessions h.2,
)
