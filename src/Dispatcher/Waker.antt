-- ===== src/Dispatcher/Waker.antt =====
-- The idle wake: `L3Waker` of dispatcher/wake.py.
-- The Paseo client and its local records are outside this model: `inspect` gives the state of an
-- agent, none where it raises PaseoError; `send` says whether it went through; `find_agent` is
-- `find_agent_for_session`. What else `inspect` and `find_agent` raise comes as a raised outcome.
-- `prunes` says which sessions other processes prune while the send runs; between the other
-- transactions of a wake others only lock rows (`held`). The time is read once, and the texts of the
-- reasons are left out.
use agent_notes.Prelude.{
  ℕ, String, Bool, true, false, not, Option, none, some, List, [], ◌∷◌, ◌==◌, ◌&&◌, ◌||◌, str_eq,
  ltb, leb, if◌then◌else◌, filter, map, is_empty,
}
use agent_notes.Messaging.{Session, Message, Mail, Outcome, done, ◌>>=◌, is_some, raised}
use agent_notes.Messaging.Table.{get_session, get_message, project_of, is_text}
use agent_notes.Messaging.Sessions.{
  set_paseo_agent_id, effective_auto_continues, bump_auto_continue,
}
use agent_notes.Messaging.Sending.{is_request, is_notice}
use agent_notes.Messaging.Claiming.{unclaimed, claim_message, release_claims}
use agent_notes.Messaging.Waking.{Refusal, wake_refusal, sender_trust}

pub data AgentState : Type 0 where
  idle busy other : AgentState

pub data WakeOutcome : Type 0 where
  sent deferred refused not_hosted skipped failed : WakeOutcome

pub record WakeResult : Type 0 where
  pub outcome : WakeOutcome
  pub message_ids : List ℕ
  pub refusals : List (ℕ × Refusal)
  pub remaining : List ℕ

pub record Client : Type 0 where
  pub inspect : String → Outcome (Option AgentState)
  pub send : String → Message → Bool
  pub prunes : String → Bool

pub record L3Waker : Type 0 where
  pub vm : String
  pub paseo : Option Client
  pub find_agent : String → Outcome (Option String)
  pub max_auto_continues : ℕ
  pub auto_continue_window : ℕ
  pub claimer : String

-- `sorted(set(ids))`
unfoldable pub insert_once : ℕ → List ℕ → List ℕ
insert_once i [] = i ∷ []
insert_once i (j ∷ js) =
    let rest = insert_once i js in
    if i == j then j ∷ js else if ltb i j then i ∷ j ∷ js else j ∷ rest

unfoldable pub sorted_set : List ℕ → List ℕ
unfolding insert_once
sorted_set [] = []
sorted_set (i ∷ is) = insert_once i (sorted_set is)

abbrev is_deliverable : ℕ → String → Message → Bool
is_deliverable now key m =
    unclaimed m
    && m.wake
    && not (is_request m.kind || is_notice m.kind)
    && is_text key m.to_session
    && ltb now m.expires_at

abbrev keep_row : ℕ → String → Option Message → List Message → List Message
keep_row now key none rows = rows
keep_row now key (some m) rows = if is_deliverable now key m then m ∷ rows else rows

unfoldable pub read_rows : ℕ → String → Mail → List ℕ → List Message
unfolding get_message is_text
read_rows now key mail [] = []
read_rows now key mail (i ∷ is) = keep_row now key (get_message i mail) (read_rows now key mail is)

-- `_deliverable`
unfoldable pub deliverable_rows : ℕ → String → List ℕ → Mail → List Message
unfolding sorted_set read_rows
deliverable_rows now key ids mail = read_rows now key mail (sorted_set ids)

abbrev given : Option String → Option String
given none = none
given (some agent) = if str_eq agent "" then none else some agent

abbrev pub found_agent : Session → Option String → Mail → Outcome ((Option String × Session) × Mail)
found_agent s none mail = done ((none, s), mail)
found_agent s (some agent) mail = do
  updated ← set_paseo_agent_id s.session_key (some agent) mail
  done ((some agent, elim updated.0 [ none ↦ s | some t ↦ t ]), updated.1)

abbrev pub hosted_by :
    L3Waker → Session → Option String → Mail → Outcome ((Option String × Session) × Mail)
hosted_by w s (some agent) mail = done ((some agent, s), mail)
hosted_by w s none mail = w.find_agent s.session_id >>= λ found. found_agent s found mail

-- `resolve_agent`
unfoldable pub resolve_agent : L3Waker → Session → Mail → Outcome ((Option String × Session) × Mail)
unfolding set_paseo_agent_id
resolve_agent w s mail = hosted_by w s (given s.paseo_agent_id) mail

abbrev pub ids_of : List Message → List ℕ
ids_of rows = map (λ (m : Message). m.id) rows

abbrev pub refusal_of : Session → Mail → Message → Option Refusal
refusal_of s mail m = wake_refusal (some (s, project_of s mail)) m (sender_trust m mail)

-- `eligible` and `refused`, in the order of the rows.
abbrev pub eligible : Session → Mail → List Message → List Message
eligible s mail rows = filter (λ m. not (is_some (refusal_of s mail m))) rows

abbrev note : ℕ → Option Refusal → List (ℕ × Refusal) → List (ℕ × Refusal)
note id none rest = rest
note id (some why) rest = (id, why) ∷ rest

unfoldable pub refusals_of : Session → Mail → List Message → List (ℕ × Refusal)
unfolding wake_refusal sender_trust project_of
refusals_of s mail [] = []
refusals_of s mail (m ∷ rows) = note m.id (refusal_of s mail m) (refusals_of s mail rows)

abbrev pub Claimed : Type 0
Claimed = Option (Message × List Message)

abbrev pub claimed_first :
    Option Message × Mail → List Message → (Mail → Claimed × Mail) → Claimed × Mail
claimed_first (some m, after) rows next = (some (m, rows), after)
claimed_first (none, after) rows next = next after

-- The loop that claims the first eligible row, with the rows behind it.
unfoldable pub claim_loop : (ℕ → Bool) → ℕ → String → List Message → Mail → Claimed × Mail
unfolding claim_message
claim_loop held now who [] mail = (none, mail)
claim_loop held now who (m ∷ rows) mail =
    claimed_first (claim_message held m.id who now mail) rows (claim_loop held now who rows)

abbrev pub result : WakeOutcome → List ℕ → List (ℕ × Refusal) → List ℕ → WakeResult
result outcome ids refusals remaining = record {
  outcome = outcome;
  message_ids = ids;
  refusals = refusals;
  remaining = remaining;
}

-- A wake that raises leaves what its transactions have committed.
abbrev pub counted : WakeResult → Mail → Outcome (Option Session × Mail) → Outcome WakeResult × Mail
counted r mail (raised e) = (raised e, mail)
counted r mail (done (s, after)) = (done r, after)

-- Behind a claim: the send, and the release where it raises.
unfoldable pub deliver :
    L3Waker
    → ℕ
    → String
    → List ℕ
    → List (ℕ × Refusal)
    → Bool
    → Message
    → List Message
    → Mail
    → Outcome WakeResult × Mail
unfolding bump_auto_continue release_claims
deliver w now key ids refusals true m rows mail =
    counted (result sent (m.id ∷ []) refusals (ids_of rows)) mail
      (bump_auto_continue now w.auto_continue_window key mail)
deliver w now key ids refusals false m rows mail =
    (done (result failed ids refusals []), (release_claims (m.id ∷ []) w.claimer mail).1)

-- The mailbox behind the send, where other processes have pruned sessions.
unfoldable pub without_pruned : (String → Bool) → Mail → Mail
without_pruned gone mail = record mail {
  sessions = filter (λ (s : Session). not (gone s.session_key)) mail.sessions;
}

abbrev pub delivered :
    L3Waker
    → Client
    → ℕ
    → String
    → String
    → List ℕ
    → List (ℕ × Refusal)
    → Claimed × Mail
    → Outcome WakeResult × Mail
delivered w client now key agent ids refusals (none, mail) = (done (result skipped ids [] []), mail)
delivered w client now key agent ids refusals (some (m, rows), mail) =
    deliver w now key ids refusals (client.send agent m) m rows (without_pruned client.prunes mail)

-- The state of the agent decides.
abbrev pub by_state :
    (ℕ → Bool)
    → L3Waker
    → Client
    → ℕ
    → String
    → String
    → List ℕ
    → List (ℕ × Refusal)
    → List Message
    → Mail
    → Option AgentState
    → Outcome WakeResult × Mail
by_state held w client now key agent ids refusals rows mail none =
    (done (result deferred ids refusals []), mail)
by_state held w client now key agent ids refusals rows mail (some idle) =
    delivered w client now key agent ids refusals (claim_loop held now w.claimer rows mail)
by_state held w client now key agent ids refusals rows mail (some busy) =
    (done (result deferred ids refusals []), mail)
by_state held w client now key agent ids refusals rows mail (some other) =
    (done (result not_hosted ids refusals []), mail)

abbrev pub inspected :
    (ℕ → Bool)
    → L3Waker
    → Client
    → ℕ
    → String
    → String
    → List ℕ
    → List (ℕ × Refusal)
    → List Message
    → Mail
    → Outcome (Option AgentState)
    → Outcome WakeResult × Mail
inspected held w client now key agent ids refusals rows mail (raised e) = (raised e, mail)
inspected held w client now key agent ids refusals rows mail (done state) =
    by_state held w client now key agent ids refusals rows mail state

abbrev pub with_client :
    (ℕ → Bool)
    → L3Waker
    → Option Client
    → ℕ
    → String
    → String
    → List ℕ
    → List (ℕ × Refusal)
    → List Message
    → Mail
    → Outcome WakeResult × Mail
with_client held w none now key agent ids refusals rows mail =
    (done (result failed ids refusals []), mail)
with_client held w (some client) now key agent ids refusals rows mail =
    inspected held w client now key agent ids refusals rows mail (client.inspect agent)

-- The wake of a session whose agent is known: the rule, the cap, and the send.
unfoldable pub wake_agent :
    (ℕ → Bool)
    → L3Waker
    → ℕ
    → String
    → String
    → Session
    → List Message
    → Mail
    → Outcome WakeResult × Mail
unfolding refusals_of effective_auto_continues claim_loop deliver without_pruned
wake_agent held w now key agent s rows mail =
    let ids = ids_of rows in
    let refusals = refusals_of s mail rows in
    if is_empty (eligible s mail rows)
    then (done (result refused ids refusals []), mail)
    else if leb w.max_auto_continues (effective_auto_continues now w.auto_continue_window s)
    then (done (result refused ids refusals []), mail)
    else with_client held w w.paseo now key agent ids refusals (eligible s mail rows) mail

abbrev pub wake_resolved :
    (ℕ → Bool)
    → L3Waker
    → ℕ
    → String
    → List Message
    → (Option String × Session) × Mail
    → Outcome WakeResult × Mail
wake_resolved held w now key rows ((none, s), mail) =
    (done (result not_hosted (ids_of rows) [] []), mail)
wake_resolved held w now key rows ((some agent, s), mail) =
    wake_agent held w now key agent s rows mail

abbrev pub wake_hosted :
    (ℕ → Bool)
    → L3Waker
    → ℕ
    → String
    → List Message
    → Mail
    → Outcome ((Option String × Session) × Mail)
    → Outcome WakeResult × Mail
wake_hosted held w now key rows mail (raised e) = (raised e, mail)
wake_hosted held w now key rows mail (done x) = wake_resolved held w now key rows x

abbrev pub wake_session :
    (ℕ → Bool)
    → L3Waker
    → ℕ
    → String
    → List Message
    → Mail
    → Option Session
    → Outcome WakeResult × Mail
wake_session held w now key rows mail none = (done (result not_hosted (ids_of rows) [] []), mail)
wake_session held w now key rows mail (some s) =
    if not (str_eq s.vm_id w.vm)
    then (done (result not_hosted (ids_of rows) [] []), mail)
    else wake_hosted held w now key rows mail (resolve_agent w s mail)

-- `wake`
unfoldable pub wake : (ℕ → Bool) → L3Waker → ℕ → String → List ℕ → Mail → Outcome WakeResult × Mail
unfolding deliverable_rows get_session resolve_agent wake_agent
wake held w now key ids mail =
    let rows = deliverable_rows now key ids mail in
    if is_empty rows
    then (done (result skipped [] [] []), mail)
    else wake_session held w now key rows mail (get_session key mail)
