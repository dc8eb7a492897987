-- ===== src/Messaging/Sessions.antt =====
-- Presence: `register_session`, `set_session_policy`, `set_paseo_agent_id`, the loop guard
-- `auto_continues`, and the sessions' part of `prune`.
use agent_notes.Prelude.{
  ℕ, String, ◌+◌, Bool, true, false, Option, none, some, List, [], ◌∷◌, ◌||◌, str_eq, ltb, leb,
  if◌then◌else◌,
}
use agent_notes.Messaging.{
  WakePolicy, never, direct, any_direct_from_project, Trust, normal, untrusted_input, Session,
  Project, Mail, Outcome, done, raised, ◌>>=◌, coalesce, or_else, is_some, MessagingError,
  not_registered, unknown_policy, unknown_trust,
}
use agent_notes.Messaging.Table.{update_where, find_project, get_session}
use agent_notes.Messaging.Keys.{session_key}

-- TRUST_LEVELS
unfoldable pub read_trust : String → Option Trust
read_trust t =
    if str_eq t "normal"
    then some normal
    else if str_eq t "untrusted-input"
    then some untrusted_input
    else none

-- WAKE_POLICIES
unfoldable pub read_policy : String → Option WakePolicy
read_policy p =
    if str_eq p "none"
    then some never
    else if str_eq p "direct"
    then some direct
    else if str_eq p "any-direct-from-project"
    then some any_direct_from_project
    else none

-- An optional argument: absent, or a text that must be one of the levels.
abbrev pub optional :
    {A : Type 0} → (String → Option A) → MessagingError → Option String → Outcome (Option A)
optional read e none = done none
optional read e (some t) = elim (read t) [ none ↦ raised e | some a ↦ done (some a) ]

-- The default: `direct` for a session that Paseo hosts.
abbrev pub default_policy : Option String → WakePolicy
default_policy none = never
default_policy (some agent) = direct

-- What a caller of `register_session` passes.
pub record Registration : Type 0 where
  pub vm : String
  pub harness : String
  pub session_id : String
  pub workspace_id : ℕ
  pub project_id : Option ℕ
  pub cwd : Option String
  pub paseo_agent_id : Option String
  pub trust : Option String
  pub replace_location : Bool
  pub model : Option String

-- The row that the INSERT would write.
abbrev pub fresh_session : String → ℕ → Option Trust → Registration → Session
fresh_session key now trust r = record {
  session_key = key;
  workspace_id = r.workspace_id;
  vm_id = r.vm;
  harness = r.harness;
  session_id = r.session_id;
  paseo_agent_id = r.paseo_agent_id;
  project_id = r.project_id;
  cwd = r.cwd;
  wake_policy = default_policy r.paseo_agent_id;
  wake_policy_explicit = false;
  trust = or_else trust normal;
  auto_continues = 0;
  auto_continue_at = none;
  model = r.model;
  started_at = now;
  last_seen_at = now;
}

-- `cwd_expr` and `proj_expr`
abbrev placed : {A : Type 0} → Bool → Option A → Option A → Option A
placed true new old = coalesce new old
placed false new old = coalesce old new

-- (SELECT p.workspace_id FROM projects p WHERE p.id = ...)
unfoldable pub workspace_of : List Project → Option ℕ → Option ℕ
unfolding find_project
workspace_of projects none = none
workspace_of projects (some id) = elim (find_project id projects) [
  | none ↦ none
  | some p ↦ some p.workspace_id
]

-- ON CONFLICT (session_key) DO UPDATE
unfoldable pub refreshed : List Project → ℕ → Option Trust → Registration → Session → Session
unfolding workspace_of
refreshed projects now trust r s =
    let project = placed r.replace_location r.project_id s.project_id in
    let agent = coalesce r.paseo_agent_id s.paseo_agent_id in
    record s {
      workspace_id = or_else (workspace_of projects project) r.workspace_id;
      paseo_agent_id = agent;
      project_id = project;
      cwd = placed r.replace_location r.cwd s.cwd;
      wake_policy = if s.wake_policy_explicit then s.wake_policy else default_policy agent;
      trust = or_else trust s.trust;
      model = coalesce r.model s.model;
      last_seen_at = now;
    }

unfoldable pub upsert_session :
    String → List Project → ℕ → Option Trust → Registration → List Session → List Session
unfolding refreshed
upsert_session key projects now trust r [] = fresh_session key now trust r ∷ []
upsert_session key projects now trust r (s ∷ rows) =
    let rest = upsert_session key projects now trust r rows in
    if str_eq s.session_key key then refreshed projects now trust r s ∷ rows else s ∷ rest

unfoldable pub register_session : ℕ → Registration → Mail → Outcome (Option Session × Mail)
unfolding read_trust upsert_session get_session
register_session now r mail = do
  key ← session_key r.vm r.harness r.session_id
  trust ← optional read_trust unknown_trust r.trust
  let after = record mail { sessions = upsert_session key mail.projects now trust r mail.sessions }
  done (get_session key after, after)

abbrev pub keyed : String → Session → Bool
keyed key s = str_eq s.session_key key

-- UPDATE agent_sessions WHERE session_key, raising where no row matches.
unfoldable pub update_session :
    String → (Session → Session) → Mail → Outcome (Option Session × Mail)
unfolding update_where get_session
update_session key f mail =
    let after = record mail { sessions = update_where (keyed key) f mail.sessions } in
    if is_some (get_session key mail)
    then done (get_session key after, after)
    else raised not_registered

abbrev pub with_policy : Option WakePolicy → Option Trust → Session → Session
with_policy policy trust s = record s {
  wake_policy = or_else policy s.wake_policy;
  wake_policy_explicit = s.wake_policy_explicit || is_some policy;
  trust = or_else trust s.trust;
}

unfoldable pub set_session_policy :
    String → Option String → Option String → Mail → Outcome (Option Session × Mail)
unfolding read_policy read_trust update_session
set_session_policy key wake_policy trust mail = do
  policy ← optional read_policy unknown_policy wake_policy
  level ← optional read_trust unknown_trust trust
  update_session key (with_policy policy level) mail

abbrev pub with_agent : Option String → Session → Session
with_agent agent s = record s {
  paseo_agent_id = agent;
  wake_policy = if s.wake_policy_explicit then s.wake_policy else default_policy agent;
}

unfoldable pub set_paseo_agent_id : String → Option String → Mail → Outcome (Option Session × Mail)
unfolding update_session
set_paseo_agent_id key agent mail = update_session key (with_agent agent) mail

-- `auto_continue_age` of a row is the clock less `auto_continue_at`.
unfoldable pub effective_auto_continues : ℕ → ℕ → Session → ℕ
effective_auto_continues now window s = elim s.auto_continue_at [
  | none ↦ 0
  | some at ↦ if leb now (at + window) then s.auto_continues else 0
]

-- `auto_continue_at > now() - window`
abbrev is_recent : ℕ → ℕ → Option ℕ → Bool
is_recent now window none = false
is_recent now window (some at) = ltb now (at + window)

abbrev pub bumped : ℕ → ℕ → Session → Session
bumped now window s = record s {
  auto_continues = if is_recent now window s.auto_continue_at then s.auto_continues + 1 else 1;
  auto_continue_at = some now;
}

unfoldable pub bump_auto_continue : ℕ → ℕ → String → Mail → Outcome (Option Session × Mail)
unfolding update_session
bump_auto_continue now window key mail = update_session key (bumped now window) mail

abbrev pub cleared : Session → Session
cleared s = record s { auto_continues = 0; auto_continue_at = none }

unfoldable pub reset_auto_continue : String → Mail → Mail
unfolding update_where
reset_auto_continue key mail = record mail {
  sessions = update_where (keyed key) cleared mail.sessions;
}
