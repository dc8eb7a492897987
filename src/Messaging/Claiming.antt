-- ===== src/Messaging/Claiming.antt =====
-- Delivery: `_addressee`, `_match_sql`, `_claim` and the operations built on them, and `prune`.
-- `held` says which rows another transaction has locked: SKIP LOCKED passes over them, and
-- `claim_message` gives up on one that stays locked.
use agent_notes.Prelude.{
  ℕ, String, ◌+◌, Bool, true, false, not, Option, none, some, List, [], ◌∷◌, ◌++◌, ◌==◌, ◌&&◌, ◌||◌,
  str_eq, ltb, leb, if◌then◌else◌, filter, map, length,
}
use agent_notes.Messaging.{Session, Message, Mail, Outcome, done, ◌>>=◌, or_else, coalesce, is_some}
use agent_notes.Messaging.Table.{
  take, update_where, returning, is_any, is_text, get_session, project_of,
}
use agent_notes.Messaging.Keys.{parse_session_key}
use agent_notes.Messaging.Sending.{is_notice, is_request}
use Prim.Native.String.{◌++◌ as concat}

pub record Addressee : Type 0 where
  pub key : Option String
  pub workspace_id : Option ℕ
  pub vm : String
  pub project : Option String

abbrev pub claimer : Addressee → String
claimer who = or_else who.key (concat who.vm "/anonymous")

-- `_addressee`; `this_vm` is what `_resolve_vm_id` returns.
unfoldable pub addressee :
    String → Option String → Option String → Option String → Option ℕ → Mail → Outcome Addressee
unfolding get_session project_of parse_session_key
addressee this_vm none vm project workspace_id mail =
    done (record {
      key = none;
      workspace_id = workspace_id;
      vm = or_else vm this_vm;
      project = project;
    })
addressee this_vm (some session) vm project workspace_id mail = elim (get_session session mail) [
  | some s ↦ done (record {
    key = some session;
    workspace_id = some s.workspace_id;
    vm = s.vm_id;
    project = coalesce project (project_of s mail);
  })
  | none ↦ do
    parts ← parse_session_key session
    done (record {
      key = some session;
      workspace_id = workspace_id;
      vm = or_else vm parts.0;
      project = project;
    })
]

-- `to_x IS NULL OR to_x = x`, where a null x equals nothing.
abbrev null_or : Option String → Option String → Bool
null_or none x = true
null_or (some t) none = false
null_or (some t) (some x) = str_eq t x

abbrev same : Option String → Option String → Bool
same (some t) (some x) = str_eq t x
same _ _ = false

abbrev in_workspace : Option ℕ → ℕ → Bool
in_workspace none w = false
in_workspace (some v) w = w == v

-- The branch for the inbox of a project or a VM.
abbrev pub in_inbox : Addressee → Message → Bool
in_inbox who m =
    not (is_some m.to_session)
    && in_workspace who.workspace_id m.workspace_id
    && null_or m.to_project who.project
    && null_or m.to_vm (some who.vm)

-- `_match_sql`
unfoldable pub matches : Addressee → Bool → Bool → ℕ → Message → Bool
matches who direct_only include_notices now m =
    not (is_request m.kind)
    && ltb now m.expires_at
    && (same m.to_session who.key || not direct_only && in_inbox who m)
    && (include_notices || not (is_notice m.kind))

abbrev pub unclaimed : Message → Bool
unclaimed m = not (is_some m.claimed_by)

abbrev pub claim_as : String → ℕ → Message → Message
claim_as who now m = record m { claimed_by = some who; claimed_at = some now }

-- What the subquery of `_claim` selects, beside its LIMIT.
abbrev pub claimable : (ℕ → Bool) → (Message → Bool) → Message → Bool
claimable held p m = unclaimed m && not (is_notice m.kind) && p m && not (held m.id)

abbrev pub selected : ℕ → (Message → Bool) → List Message → List ℕ
selected limit p rows = map (λ (m : Message). m.id) (take limit (filter p rows))

-- The WHERE of the UPDATE.
abbrev pub chosen : List ℕ → Message → Bool
chosen ids m = unclaimed m && is_any m.id ids

-- UPDATE ... WHERE claimed_by IS NULL AND id = ANY(...) RETURNING
unfoldable pub claim_ids : List ℕ → String → ℕ → Mail → List Message × Mail
unfolding is_any update_where returning
claim_ids ids who now mail = (
  returning (chosen ids) (claim_as who now) mail.messages,
  record mail { messages = update_where (chosen ids) (claim_as who now) mail.messages },
)

-- `_claim`
unfoldable pub claim : (ℕ → Bool) → (Message → Bool) → String → ℕ → ℕ → Mail → List Message × Mail
unfolding claim_ids take
claim held p who limit now mail =
    claim_ids (selected limit (claimable held p) mail.messages) who now mail

abbrev wakes : Bool → Message → Bool
wakes wake_only m = not wake_only || m.wake && is_some m.to_session

abbrev pub deliverable : Addressee → Bool → Bool → ℕ → Message → Bool
deliverable who direct_only wake_only now m =
    matches who (direct_only || wake_only) true now m && wakes wake_only m

-- `claim_deliverable`
unfoldable pub claim_deliverable :
    (ℕ → Bool) → String → Bool → Bool → ℕ → ℕ → Mail → Outcome (List Message × Mail)
unfolding addressee matches claim
claim_deliverable held session direct_only wake_only limit now mail = do
  who ← addressee "" (some session) none none none mail
  done (claim held (deliverable who direct_only wake_only now) (claimer who) limit now mail)

abbrev pub countable : Addressee → Bool → ℕ → Message → Bool
countable who wake_only now m =
    unclaimed m && matches who wake_only false now m && wakes wake_only m

-- `count_deliverable`
unfoldable pub count_deliverable : String → Bool → ℕ → Mail → Outcome ℕ
unfolding addressee matches
count_deliverable session wake_only now mail = do
  who ← addressee "" (some session) none none none mail
  done (length (filter (countable who wake_only now) mail.messages))

abbrev pub claimed_by_caller : String → Message → Bool
claimed_by_caller who m = is_text who m.claimed_by

-- `seen_filter` of `inbox`
abbrev pub seen : Bool → Bool → String → Message → Bool
seen claims include_claimed who m =
    is_notice m.kind
    || not claims && unclaimed m
    || include_claimed && not (unclaimed m) && (is_some m.to_session || claimed_by_caller who m)

-- ORDER BY id of two ordered lists
unfoldable pub insert_row : Message → List Message → List Message
insert_row m [] = m ∷ []
insert_row m (n ∷ rows) = if leb m.id n.id then m ∷ n ∷ rows else n ∷ insert_row m rows

unfoldable pub sort_rows : List Message → List Message
unfolding insert_row
sort_rows [] = []
sort_rows (m ∷ rows) = insert_row m (sort_rows rows)

abbrev ids_of : List Message → List ℕ
ids_of rows = map (λ (m : Message). m.id) rows

-- `if claim: claimed = _claim(...)`
abbrev pub taken_if :
    Bool → (ℕ → Bool) → (Message → Bool) → String → ℕ → ℕ → Mail → List Message × Mail
taken_if true held p who limit now mail = claim held p who limit now mail
taken_if false held p who limit now mail = ([], mail)

-- `inbox`, for an `emit` that does not raise.
unfoldable pub inbox :
    (ℕ → Bool)
    → String
    → Option String
    → Bool
    → Bool
    → Option String
    → Option String
    → Option ℕ
    → ℕ
    → ℕ
    → Mail
    → Outcome (List Message × Mail)
unfolding addressee matches claim take is_any is_text sort_rows
inbox held this_vm session claims include_claimed vm project workspace_id limit now mail = do
  who ← addressee this_vm session vm project workspace_id mail
  let p = matches who false true now
  let taken = taken_if claims held p (claimer who) limit now mail
  let listed = take limit (
      filter
        (λ m.
          p m && seen claims include_claimed (claimer who) m && not (is_any m.id (ids_of taken.0)))
        taken.1.messages)
  done (if claims then sort_rows (taken.0 ++ listed) else listed, taken.1)

abbrev pub is_held_by : List ℕ → String → Message → Bool
is_held_by ids who m = is_any m.id ids && claimed_by_caller who m

abbrev pub unclaim : Message → Message
unclaim m = record m { claimed_by = none; claimed_at = none }

-- `release_claims`: how many rows were released.
unfoldable pub release_claims : List ℕ → String → Mail → ℕ × Mail
unfolding is_any is_text update_where
release_claims ids who mail = (
  length (filter (is_held_by ids who) mail.messages),
  record mail { messages = update_where (is_held_by ids who) unclaim mail.messages },
)

abbrev pub requested : (ℕ → Bool) → String → ℕ → Message → Bool
requested held vm now m =
    is_request m.kind
    && is_text vm m.to_vm
    && unclaimed m
    && ltb now m.expires_at
    && not (held m.id)

-- `claim_requests`
unfoldable pub claim_requests :
    (ℕ → Bool) → String → ℕ → Option String → ℕ → Mail → List Message × Mail
unfolding is_text claim_ids take
claim_requests held vm limit who now mail =
    claim_ids (selected limit (requested held vm now) mail.messages)
      (or_else who (concat vm "/dispatcher")) now mail

abbrev pub awaits_claim : ℕ → ℕ → Message → Bool
awaits_claim id now m = m.id == id && unclaimed m && not (is_notice m.kind) && ltb now m.expires_at

abbrev pub head : List Message → Option Message
head [] = none
head (m ∷ rows) = some m

-- `claim_message`
unfoldable pub claim_message : (ℕ → Bool) → ℕ → String → ℕ → Mail → Option Message × Mail
unfolding update_where returning
claim_message held id who now mail = if held id then (none, mail) else (
  head (returning (awaits_claim id now) (claim_as who now) mail.messages),
  record mail { messages = update_where (awaits_claim id now) (claim_as who now) mail.messages },
)

abbrev day : ℕ
day = 86400

-- ON DELETE SET NULL
abbrev pub forget_reply : List ℕ → Message → Message
forget_reply gone m = record m {
  reply_to = elim m.reply_to [ none ↦ none | some i ↦ if is_any i gone then none else some i ];
}

-- `prune`; the counts are those of the rows that it deletes.
unfoldable pub prune : ℕ → Mail → Mail
unfolding is_any
prune now mail =
    let expired = filter (λ (m : Message). leb m.expires_at now) mail.messages in
    record mail {
      messages =
          map (forget_reply (ids_of expired))
            (filter (λ (m : Message). ltb now m.expires_at) mail.messages);
      sessions = filter (λ (s : Session). leb now (s.last_seen_at + day)) mail.sessions;
    }
