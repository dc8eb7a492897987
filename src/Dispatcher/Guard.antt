-- ===== src/Dispatcher/Guard.antt =====
-- About the outcomes of `wake` in dispatcher/wake.py and the loop guard.
use agent_notes.Prelude.{
  Bool-cases, ℕ, String, ◌≡◌, refl, sym, ap, ◌∙◌, ◌≤◌, Bool, true, false, Option, none, some, List,
  [], ◌∷◌, arith, inl, inr, if◌then◌else◌, leb, not, str_eq, ◌⊎◌, is_empty,
}
use agent_notes.Messaging.{Message, Mail, Session, Outcome, done, raised, not_registered}
use agent_notes.Messaging.Table.{get_session, find_session}
use agent_notes.Messaging.Sessions.{
  update_session, bumped, effective_auto_continues, bump_auto_continue,
}
use agent_notes.Messaging.Claiming.{claim_message, release_claims}
use agent_notes.Messaging.Waking.{Refusal}
use agent_notes.Messaging.Invariant.{IsMailSound}
use agent_notes.Messaging.Invariant.Sends.{done_inj}
use agent_notes.Dispatcher.Hosting.{
  find_session-pruned, get_updated, claim_message-sessions, Resolved, hosted_by-Resolved,
}
use agent_notes.Dispatcher.Releasing.{
  claim_message-released, claim_message-id, LoopEnd, claim_loop-cases,
}
use agent_notes.Dispatcher.Waker.{
  without_pruned, AgentState, idle, busy, other, sent, refused, not_hosted, skipped, WakeResult,
  L3Waker, Client, Claimed, deliver, delivered, by_state, with_client, wake_hosted, inspected,
  counted, wake_agent, wake_resolved, wake_session, wake, resolve_agent, eligible, refusals_of,
  ids_of, deliverable_rows, result,
}

-- A wake below the cap leaves the counter at the cap at most.
bumped-le-cap :
    (now window cap : ℕ) (s : Session)
    → leb cap (effective_auto_continues now window s) ≡ false
    → (bumped now window s).auto_continues ≤ cap
unfolding effective_auto_continues
bumped-le-cap now window cap s h = ground arith

-- A message was sent and the counter is at the cap at most, or every message is as it was.
Settled : L3Waker → String → Mail → WakeResult → Mail → Type 0
Settled w key mail r end =
    ((r.outcome ≡ sent)
      × ((s : Session) × (get_session key end ≡ some s)
          × (s.auto_continues ≤ w.max_auto_continues)))
    ⊎ (end.messages ≡ mail.messages)

quiet :
    (w : L3Waker) (key : String) (mail end : Mail) (x r : WakeResult)
    → Path (Outcome WakeResult × Mail) (done x, mail) (done r, end)
    → Settled w key mail r end
unfolding Settled
quiet w key mail end x r h = inr (ap (λ t. t.1.messages) (sym h))

two_tests :
    {A : Type 0} (a b : Bool) (q x y : A)
    → (if a then q else if b then q else x) ≡ y
    → (q ≡ y) ⊎ ((b ≡ false) × (x ≡ y))
two_tests true b q x y h = inl h
two_tests false true q x y h = inl h
two_tests false false q x y h = inr (refl, h)

one_test : {A : Type 0} (a : Bool) (q x y : A) → (if a then q else x) ≡ y → (q ≡ y) ⊎ (x ≡ y)
one_test true q x y h = inl h
one_test false q x y h = inr h

counted-of :
    (x r : WakeResult) (mail end : Mail) (o : Outcome (Option Session × Mail))
    → Path (Outcome WakeResult × Mail) (counted x mail o) (done r, end)
    → (out : Option Session × Mail) × (o ≡ done out) × ((x ≡ r) × (out.1 ≡ end))
counted-of x r mail end (raised e) h = cc (ap (λ t. t.0) h)
counted-of x r mail end (done out) h =
    (out, refl, (done_inj _ _ (ap (λ t. t.0) h), ap (λ t. t.1) h))

module _ (held : ℕ → Bool) (w : L3Waker) (now : ℕ) (key : String) where
  abbrev Below : Session → Type 0
  Below s = leb w.max_auto_continues (effective_auto_continues now w.auto_continue_window s) ≡ false

  claimed_session :
      (i : ℕ) (mail : Mail) (s : Session)
      → get_session key mail ≡ some s
      → get_session key (claim_message held i w.claimer now mail).1 ≡ some s
  unfolding get_session
  claimed_session i mail s found =
      ap (find_session key) (claim_message-sessions held i w.claimer now mail) ∙ found

  get_session-pruned :
      (gone : String → Bool) (mail : Mail)
      → get_session key (without_pruned gone mail)
        ≡ (if gone key then none else get_session key mail)
  unfolding get_session without_pruned
  get_session-pruned gone mail = find_session-pruned gone key mail.sessions

  bump_missing :
      (window : ℕ) (mail : Mail)
      → get_session key mail ≡ none
      → bump_auto_continue now window key mail ≡ raised not_registered
  unfolding bump_auto_continue update_session
  bump_missing window mail h = rw h refl

  -- Where the counter could be set, the session is still there.
  bump_session :
      (gone : String → Bool) (window : ℕ) (mail : Mail) (s : Session) (out : Option Session × Mail)
      → get_session key mail ≡ some s
      → bump_auto_continue now window key (without_pruned gone mail) ≡ done out
      → get_session key (without_pruned gone mail) ≡ some s
  bump_session gone window mail s out found h = elim (Bool-cases (gone key)) [
    | inl g ↦
        let away : get_session key (without_pruned gone mail) ≡ none =
          get_session-pruned gone mail ∙ rw g refl in
        cc (bump_missing window (without_pruned gone mail) away, h)
    | inr k ↦ get_session-pruned gone mail ∙ rw k found
  ]

  release-pruned :
      (gone : String → Bool) (ids : List ℕ) (mail : Mail)
      → (release_claims ids w.claimer (without_pruned gone mail)).1.messages
        ≡ (release_claims ids w.claimer mail).1.messages
  unfolding release_claims without_pruned
  release-pruned gone ids mail = refl

  deliver-Settled :
      (gone : String → Bool) (ids : List ℕ) (refusals : List (ℕ × Refusal)) (went : Bool) (i : ℕ)
      (m : Message) (rows : List Message) (mail end : Mail) (s : Session) (r : WakeResult)
      → IsMailSound mail
      → get_session key mail ≡ some s
      → Below s
      → (claim_message held i w.claimer now mail).0 ≡ some m
      → deliver w now key ids refusals went m rows
          (without_pruned gone (claim_message held i w.claimer now mail).1)
        ≡ (done r, end)
      → Settled w key mail r end
  unfolding deliver Settled bump_auto_continue
  deliver-Settled gone ids refusals true i m rows mail end s r sound found under claimed h =
      let a = (claim_message held i w.claimer now mail).1 in
      let c = without_pruned gone a in
      let window = w.auto_continue_window in
      let here : get_session key a ≡ some s = claimed_session i mail s found in
      let (out, e1, e2) = counted-of _ r c end (bump_auto_continue now window key c) h in
      let there = bump_session gone window a s out here e1 in
      let (_, after, _) =
        get_updated key (bumped now window) (λ t. refl) c out.1 out.0 s there e1 in
      inl (
        ap (λ (x : WakeResult). x.outcome) (sym e2.0),
        (
          bumped now window s,
          ap (get_session key) (sym e2.1) ∙ after,
          bumped-le-cap now window w.max_auto_continues s under,
        ),
      )
  deliver-Settled gone ids refusals false i m rows mail end s r sound found under claimed h =
      let c = (claim_message held i w.claimer now mail).1 in
      let is_i = claim_message-id held i w.claimer now mail m claimed in
      let back = claim_message-released held i w.claimer now mail m sound claimed in
      inr (
        ap (λ t. t.1.messages) (sym h)
        ∙ release-pruned gone (m.id ∷ []) c
        ∙ ap (λ j. (release_claims (j ∷ []) w.claimer c).1.messages) is_i
        ∙ back)

  delivered-Settled :
      (client : Client) (agent : String) (ids : List ℕ) (refusals : List (ℕ × Refusal))
      (out : Claimed × Mail) (mail end : Mail) (s : Session) (r : WakeResult)
      → IsMailSound mail
      → get_session key mail ≡ some s
      → Below s
      → LoopEnd held now w.claimer mail out
      → delivered w client now key agent ids refusals out ≡ (done r, end)
      → Settled w key mail r end
  unfolding LoopEnd
  delivered-Settled client agent ids refusals out mail end s r sound found under (inl nothing) h =
      quiet w key mail end _ r
        (ap (delivered w client now key agent ids refusals) (sym nothing) ∙ h)
  delivered-Settled client agent ids refusals out mail end s r sound found under
        (inr (i, m, rows, row, claimed)) h =
      deliver-Settled client.prunes ids refusals (client.send agent m) i m rows mail end s r sound
        found under claimed (ap (delivered w client now key agent ids refusals) (sym row) ∙ h)

  by_state-Settled :
      (client : Client) (agent : String) (ids : List ℕ) (refusals : List (ℕ × Refusal))
      (rows : List Message) (mail end : Mail) (s : Session) (r : WakeResult)
      (state : Option AgentState)
      → IsMailSound mail
      → get_session key mail ≡ some s
      → Below s
      → by_state held w client now key agent ids refusals rows mail state ≡ (done r, end)
      → Settled w key mail r end
  by_state-Settled client agent ids refusals rows mail end s r none sound found under h =
      quiet w key mail end _ r h
  by_state-Settled client agent ids refusals rows mail end s r (some idle) sound found under h =
      delivered-Settled client agent ids refusals _ mail end s r sound found under
        (claim_loop-cases held now w.claimer rows mail) h
  by_state-Settled client agent ids refusals rows mail end s r (some busy) sound found under h =
      quiet w key mail end _ r h
  by_state-Settled client agent ids refusals rows mail end s r (some other) sound found under h =
      quiet w key mail end _ r h

  inspected-of :
      (client : Client) (agent : String) (ids : List ℕ) (refusals : List (ℕ × Refusal))
      (rows : List Message) (mail end : Mail) (r : WakeResult) (o : Outcome (Option AgentState))
      → inspected held w client now key agent ids refusals rows mail o ≡ (done r, end)
      → (state : Option AgentState) × (by_state held w client now key agent ids refusals rows mail
            state
          ≡ (done r, end))
  inspected-of client agent ids refusals rows mail end r (raised e) h = cc (ap (λ t. t.0) h)
  inspected-of client agent ids refusals rows mail end r (done state) h = (state, h)

  hosted-of :
      (rows : List Message) (mail end : Mail) (r : WakeResult)
      (o : Outcome ((Option String × Session) × Mail))
      → wake_hosted held w now key rows mail o ≡ (done r, end)
      → (x : (Option String × Session) × Mail) × (o ≡ done x)
        × (wake_resolved held w now key rows x ≡ (done r, end))
  hosted-of rows mail end r (raised e) h = cc (ap (λ t. t.0) h)
  hosted-of rows mail end r (done x) h = (x, refl, h)

  with_client-Settled :
      (client : Option Client) (agent : String) (ids : List ℕ) (refusals : List (ℕ × Refusal))
      (rows : List Message) (mail end : Mail) (s : Session) (r : WakeResult)
      → IsMailSound mail
      → get_session key mail ≡ some s
      → Below s
      → with_client held w client now key agent ids refusals rows mail ≡ (done r, end)
      → Settled w key mail r end
  with_client-Settled none agent ids refusals rows mail end s r sound found under h =
      quiet w key mail end _ r h
  with_client-Settled (some client) agent ids refusals rows mail end s r sound found under h =
      let (state, rest) =
        inspected-of client agent ids refusals rows mail end r (client.inspect agent) h in
      by_state-Settled client agent ids refusals rows mail end s r state sound found under rest

  wake_agent-Settled :
      (agent : String) (rows : List Message) (mail end : Mail) (s : Session) (r : WakeResult)
      → IsMailSound mail
      → get_session key mail ≡ some s
      → wake_agent held w now key agent s rows mail ≡ (done r, end)
      → Settled w key mail r end
  unfolding wake_agent
  wake_agent-Settled agent rows mail end s r sound found h =
      let ids = ids_of rows in
      let refusals = refusals_of s mail rows in
      elim (two_tests (is_empty (eligible s mail rows))
        (leb w.max_auto_continues (effective_auto_continues now w.auto_continue_window s))
        (done (result refused ids refusals []), mail)
        (with_client held w w.paseo now key agent ids refusals (eligible s mail rows) mail)
        (done r, end) h) [
          | inl early ↦ quiet w key mail end _ r early
          | inr (under, rest) ↦
              with_client-Settled w.paseo agent ids refusals (eligible s mail rows) mail end s r
                sound found under rest
        ]

  Resolved-Settled :
      (rows : List Message) (x : (Option String × Session) × Mail) (mail end : Mail)
      (r : WakeResult)
      → Resolved w key mail x
      → wake_resolved held w now key rows x ≡ (done r, end)
      → Settled w key x.1 r end
  unfolding Resolved
  Resolved-Settled rows ((none, s), after) mail end r h e = quiet w key after end _ r e
  Resolved-Settled rows ((some agent, s), after) mail end r h e =
      wake_agent-Settled agent rows after end s r h.2 h.0 e

  moved-Settled :
      (mail middle end : Mail) (r : WakeResult)
      → middle.messages ≡ mail.messages
      → Settled w key middle r end
      → Settled w key mail r end
  unfolding Settled
  moved-Settled mail middle end r same (inl h) = inl h
  moved-Settled mail middle end r same (inr h) = inr (h ∙ same)

  session-Settled :
      (rows : List Message) (mail end : Mail) (o : Option Session) (r : WakeResult)
      → IsMailSound mail
      → get_session key mail ≡ o
      → wake_session held w now key rows mail o ≡ (done r, end)
      → Settled w key mail r end
  unfolding resolve_agent Resolved
  session-Settled rows mail end none r sound found h = quiet w key mail end _ r h
  session-Settled rows mail end (some s) r sound found h =
      elim (one_test (not (str_eq s.vm_id w.vm))
        (done (result not_hosted (ids_of rows) [] []), mail)
        (wake_hosted held w now key rows mail (resolve_agent w s mail)) (done r, end) h) [
          | inl away ↦ quiet w key mail end _ r away
          | inr here ↦
              let (x, e1, e2) = hosted-of rows mail end r (resolve_agent w s mail) here in
              let resolved = hosted_by-Resolved w key s _ mail x sound found e1 in
              moved-Settled mail x.1 end r resolved.1
                (Resolved-Settled rows x mail end r resolved e2)
        ]

  -- A wake that returns from a sound mailbox either sent a message, and the session's loop guard then
  -- counts no more than the cap, or it left every message as it was, for the session's next turn.
  pub wake_settles :
      (ids : List ℕ) (mail end : Mail) (r : WakeResult)
      → IsMailSound mail
      → wake held w now key ids mail ≡ (done r, end)
      → ((r.outcome ≡ sent)
          × ((s : Session) × (get_session key end ≡ some s)
              × (s.auto_continues ≤ w.max_auto_continues)))
        ⊎ (end.messages ≡ mail.messages)
  unfolding wake Settled
  wake_settles ids mail end r sound h =
      let rows = deliverable_rows now key ids mail in
      elim (one_test (is_empty rows) (done (result skipped [] [] []), mail)
        (wake_session held w now key rows mail (get_session key mail)) (done r, end) h) [
          | inl early ↦ quiet w key mail end _ r early
          | inr rest ↦ session-Settled rows mail end (get_session key mail) r sound refl rest
        ]
