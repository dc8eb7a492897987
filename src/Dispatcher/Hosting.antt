-- ===== src/Dispatcher/Hosting.antt =====
-- About `resolve_agent` of dispatcher/wake.py and the updates of the session.
use agent_notes.Prelude.{
  ℕ, String, ◌≡◌, refl, sym, ap, ◌∙◌, Bool, true, Option, none, some, List, [], ◌∷◌, arith,
  Bool-cases, Option-cases, inl, inr, str_eq, eq_iff, filter, not, if◌then◌else◌,
}
use agent_notes.Messaging.{Mail, Session, Outcome, done, is_some}
use agent_notes.Messaging.Table.{get_session, find_session, update_where}
use agent_notes.Messaging.Sessions.{update_session, keyed, with_agent, set_paseo_agent_id}
use agent_notes.Messaging.Claiming.{claim_message}
use agent_notes.Messaging.Invariant.{IsMailSound}
use agent_notes.Messaging.Invariant.Sends.{bind-of, done_inj}
use agent_notes.Messaging.Invariant.Presence.{updated-of, set_paseo_agent_id-IsMailSound}
use agent_notes.Dispatcher.Waker.{L3Waker, hosted_by, found_agent}

pub find_session-key :
    (key : String) (rows : List Session) (s : Session)
    → find_session key rows ≡ some s
    → s.session_key ≡ key
unfolding find_session
find_session-key key [] s h = ground arith
find_session-key key (t ∷ rows) s h =
    ground (arith, eq_iff t.session_key key, find_session-key key rows s)

find_updated :
    (key : String) (f : Session → Session)
    → ((s : Session) → (f s).session_key ≡ s.session_key)
    → (rows : List Session) (s : Session) → find_session key rows ≡ some s
    → find_session key (update_where (keyed key) f rows) ≡ some (f s)
unfolding find_session update_where
find_updated key f same [] s h = ground arith
find_updated key f same (t ∷ rows) s h =
    let rest = find_updated key f same rows s in
    let keeps = same t in
    elim (Bool-cases (str_eq t.session_key key)) [
      | inl e ↦
          let on : str_eq (f t).session_key key ≡ true = ap (λ k. str_eq k key) keeps ∙ e in
          let is_s : t ≡ s = ground arith in rw e (rw on (ap some (ap f is_s)))
      | inr e ↦
          let later : find_session key rows ≡ some s = ground arith in rw e (rw e (rest later))
    ]

pub get_lem :
    (key : String) (mail : Mail) (s : Session)
    → get_session key mail ≡ some s
    → find_session key mail.sessions ≡ some s
unfolding get_session
get_lem key mail s h = h

pub get_updated :
    (key : String) (f : Session → Session)
    → ((s : Session) → (f s).session_key ≡ s.session_key)
    → (mail end : Mail) (x : Option Session) (s : Session) → get_session key mail ≡ some s
    → update_session key f mail ≡ done (x, end)
    → (x ≡ some (f s)) × (get_session key end ≡ some (f s)) × (end.messages ≡ mail.messages)
unfolding update_session get_session
get_updated key f same mail end x s found h =
    let after : Mail = record mail { sessions = update_where (keyed key) f mail.sessions } in
    let out =
      updated-of (is_some (get_session key mail)) (get_session key after, after) (x, end) h in
    let now_there = find_updated key f same mail.sessions s found in
    (
      sym (ap (λ t. t.0) out) ∙ now_there,
      ap (λ t. get_session key t.1) (sym out) ∙ now_there,
      ap (λ t. t.1.messages) (sym out),
    )

-- A pruned session is not found, and any other is found as before.
pub find_session-pruned :
    (gone : String → Bool) (key : String) (rows : List Session)
    → find_session key (filter (λ (s : Session). not (gone s.session_key)) rows)
      ≡ (if gone key then none else find_session key rows)
unfolding find_session
find_session-pruned gone key [] = ground arith
find_session-pruned gone key (t ∷ rows) =
    let rest = find_session-pruned gone key rows in
    elim (Bool-cases (str_eq t.session_key key)) [
      | inl e ↦
          let same = ap gone ((eq_iff t.session_key key).0 e) in
          elim (Bool-cases (gone key)) [
            | inl g ↦ rw (same ∙ g, g) (rw g at rest)
            | inr k ↦ rw (same ∙ k, k, e) refl
          ]
      | inr e ↦ elim (Bool-cases (gone t.session_key)) [
        | inl g ↦ rw (g, e) rest
        | inr k ↦ rw (k, e) rest
      ]
    ]

pub claim_message-sessions :
    (held : ℕ → Bool) (id : ℕ) (who : String) (now : ℕ) (mail : Mail)
    → (claim_message held id who now mail).1.sessions ≡ mail.sessions
unfolding claim_message
claim_message-sessions held id who now mail = ground arith

module _ (w : L3Waker) (key : String) where
  unfoldable pub Resolved : Mail → (Option String × Session) × Mail → Type 0
  Resolved mail x =
      (get_session key x.1 ≡ some x.0.1) × (x.1.messages ≡ mail.messages) × IsMailSound x.1

  kept-Resolved :
      (o : Option String) (s : Session) (mail : Mail) (x : (Option String × Session) × Mail)
      → IsMailSound mail
      → get_session key mail ≡ some s
      → Path (Outcome ((Option String × Session) × Mail)) (done ((o, s), mail)) (done x)
      → Resolved mail x
  unfolding Resolved
  kept-Resolved o s mail x sound found h = rw⁻¹ (done_inj _ _ h) (found, refl, sound)

  found-Resolved :
      (agent : String) (s : Session) (mail : Mail) (x : (Option String × Session) × Mail)
      → IsMailSound mail
      → get_session key mail ≡ some s
      → found_agent s (some agent) mail ≡ done x
      → Resolved mail x
  unfolding Resolved set_paseo_agent_id
  found-Resolved agent s mail x sound found h =
      let is_key = find_session-key key mail.sessions s (get_lem key mail s found) in
      let (out, e1, e2) = bind-of (set_paseo_agent_id s.session_key (some agent) mail) _ x h in
      let (row, after, same) =
        get_updated key (with_agent (some agent)) (λ t. refl) mail out.1 out.0 s found
          (ap (λ k. set_paseo_agent_id k (some agent) mail) (sym is_key) ∙ e1) in
      let kept =
        set_paseo_agent_id-IsMailSound s.session_key (some agent) mail out.1 out.0 sound e1 in
      rw⁻¹ (done_inj _ _ e2) (rw row (after, same, kept))

  pub hosted_by-Resolved :
      (s : Session) (o : Option String) (mail : Mail) (x : (Option String × Session) × Mail)
      → IsMailSound mail
      → get_session key mail ≡ some s
      → hosted_by w s o mail ≡ done x
      → Resolved mail x
  unfolding Resolved
  hosted_by-Resolved s (some agent) mail x sound found h =
      kept-Resolved (some agent) s mail x sound found h
  hosted_by-Resolved s none mail x sound found h =
      let (o, _, rest) = bind-of (w.find_agent s.session_id) (λ o. found_agent s o mail) x h in
      elim (Option-cases o) [
        | inl e ↦
            kept-Resolved none s mail x sound found (ap (λ o. found_agent s o mail) (sym e) ∙ rest)
        | inr (agent, e) ↦
            found-Resolved agent s mail x sound found
              (ap (λ o. found_agent s o mail) (sym e) ∙ rest)
      ]
