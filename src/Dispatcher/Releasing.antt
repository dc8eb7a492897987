-- ===== src/Dispatcher/Releasing.antt =====
-- About a claim and its release, as `wake` of dispatcher/wake.py makes them.
use agent_notes.Prelude.{
  ℕ, String, ◌≡◌, refl, sym, ap, ◌∙◌, ◌<◌, Bool, true, false, Option, none, some, List, [], ◌∷◌,
  arith, Bool-cases, inl, inr, if◌then◌else◌, ◌==◌, eq_iff, ==_iff, All, Option-cases, ◌⊎◌,
}
use agent_notes.Messaging.{Message, Mail}
use agent_notes.Messaging.Table.{returning, update_where, is_text, is_any}
use agent_notes.Messaging.Claiming.{
  claim_as, unclaimed, head, claim_message, awaits_claim, release_claims, is_held_by, unclaim,
}
use agent_notes.Messaging.Delivery.{IsAscending}
use agent_notes.Dispatcher.Waker.{Claimed, claim_loop, claimed_first}
use agent_notes.Messaging.Invariant.{IsStored, promises, IsMailSound}

none_updated :
    (p : Message → Bool) (f : Message → Message) (rows : List Message)
    → head (returning p f rows) ≡ none
    → update_where p f rows ≡ rows
unfolding returning update_where
none_updated p f [] h = refl
none_updated p f (m ∷ rows) h = let rest = none_updated p f rows in ground arith

abbrev unless_held : Bool → Option Message → Mail → Mail → Option Message × Mail
unless_held b x after mail = if b then (none, mail) else (x, after)

late :
    (b : Bool) (x : Option Message) (after mail : Mail)
    → (unless_held b x after mail).0 ≡ none
    → (x ≡ none → after ≡ mail)
    → (unless_held b x after mail).1 ≡ mail
late true x after mail h same = refl
late false x after mail h same = same h

in_time :
    (b : Bool) (x : Option Message) (after mail : Mail) (m : Message)
    → (unless_held b x after mail).0 ≡ some m
    → (x ≡ some m) × ((unless_held b x after mail).1 ≡ after)
in_time true x after mail m h = ground arith
in_time false x after mail m h = (h, refl)

-- A claim that comes too late changes nothing.
pub claim_message-late :
    (held : ℕ → Bool) (id : ℕ) (who : String) (now : ℕ) (mail : Mail)
    → (claim_message held id who now mail).0 ≡ none
    → (claim_message held id who now mail).1 ≡ mail
unfolding claim_message
claim_message-late held id who now mail h = late (held id) _ _ mail h (λ e.
    ap (λ rows. record mail { messages = rows })
      (none_updated (awaits_claim id now) (claim_as who now) mail.messages e))

awaits_above :
    (id now : ℕ) (f : Message → Message) (rows : List Message)
    → All (λ (n : Message). id < n.id) rows
    → returning (awaits_claim id now) f rows ≡ []
unfolding returning
awaits_above id now f [] h = refl
awaits_above id now f (n ∷ rows) h = ground (arith, awaits_above id now f rows)

module _ (who : String) (id now : ℕ) where
  abbrev claim_rows : List Message → List Message
  claim_rows rows = update_where (awaits_claim id now) (claim_as who now) rows

  abbrev release_rows : List Message → List Message
  release_rows rows = update_where (is_held_by (id ∷ []) who) unclaim rows

  untouched :
      (rows : List Message)
      → All (λ (n : Message). id < n.id) rows
      → release_rows (claim_rows rows) ≡ rows
  unfolding update_where is_any
  untouched [] h = refl
  untouched (n ∷ rows) h = let rest = untouched rows h.1 in ground arith

  unclaim-claim_as :
      (next : ℕ) (n : Message)
      → IsStored next n
      → unclaimed n ≡ true
      → unclaim (claim_as who now n) ≡ n
  unfolding promises
  unclaim-claim_as next n h free =
      let by : n.claimed_by ≡ none = ground arith in
      let at : n.claimed_at ≡ none = ground arith in
      ap (λ by. record n { claimed_by = by; claimed_at = none }) (sym by)
      ∙ ap (λ at. record n { claimed_at = at }) (sym at)

  is_id : (n : Message) → awaits_claim id now n ≡ true → n.id ≡ id
  is_id n h = ground arith

  held_after : (n : Message) → n.id ≡ id → is_held_by (id ∷ []) who (claim_as who now n) ≡ true
  unfolding is_any is_text
  held_after n found = let own = (eq_iff who who).1 refl in ground arith

  apart_of :
      (n : Message) (rows : List Message) (m : Message)
      → All (λ (k : Message). n.id < k.id) rows
      → head (returning (awaits_claim id now) (claim_as who now) rows) ≡ some m
      → (n.id == id) ≡ false
  apart_of n rows m above e = elim (Bool-cases (n.id == id)) [
    | inr apart ↦ apart
    | inl same ↦
        let found : n.id ≡ id = (==_iff n.id id).0 same in
        let nothing = awaits_above id now (claim_as who now) rows (rw⁻¹ found above) in ground arith
  ]

  released :
      (next : ℕ) (rows : List Message) (m : Message)
      → All (IsStored next) rows
      → IsAscending rows
      → head (returning (awaits_claim id now) (claim_as who now) rows) ≡ some m
      → release_rows (claim_rows rows) ≡ rows
  unfolding update_where returning is_any
  released next [] m stored h e = refl
  released next (n ∷ rows) m stored h e = elim (Bool-cases (awaits_claim id now n)) [
    | inl here ↦
        let same = unclaim-claim_as next n stored.0 (ground arith) in
        let rest = untouched rows (rw⁻¹ (is_id n here) h.0) in
        rw here (rw (held_after n (is_id n here)) (rw same (rw rest refl)))
    | inr not_here ↦
        let rest = released next rows m stored.1 h.1 (ground arith) in
        let later : head (returning (awaits_claim id now) (claim_as who now) rows) ≡ some m =
          ground arith in
        let apart = apart_of n rows m h.0 later in ground arith
  ]

-- A claim that is released again, as where the send raises, leaves the rows as they were.
pub claim_message-released :
    (held : ℕ → Bool) (id : ℕ) (who : String) (now : ℕ) (mail : Mail) (m : Message)
    → IsMailSound mail
    → (claim_message held id who now mail).0 ≡ some m
    → (release_claims (id ∷ []) who (claim_message held id who now mail).1).1.messages
      ≡ mail.messages
unfolding claim_message release_claims
claim_message-released held id who now mail m h e =
    let (row, after) = in_time (held id) _ _ mail m e in
    rw after (released who id now mail.next_id mail.messages m h.0 h.1 row)

claimed_id :
    (id now : ℕ) (who : String) (rows : List Message) (m : Message)
    → head (returning (awaits_claim id now) (claim_as who now) rows) ≡ some m
    → m.id ≡ id
unfolding returning
claimed_id id now who [] m e = ground arith
claimed_id id now who (n ∷ rows) m e =
    let rest = claimed_id id now who rows m in
    elim (Bool-cases (awaits_claim id now n)) [
      | inl here ↦
          let found = is_id who id now n here in
          let same : claim_as who now n ≡ m = ground arith in rw⁻¹ same found
      | inr not_here ↦ rest (ground arith)
    ]

pub claim_message-id :
    (held : ℕ → Bool) (id : ℕ) (who : String) (now : ℕ) (mail : Mail) (m : Message)
    → (claim_message held id who now mail).0 ≡ some m
    → m.id ≡ id
unfolding claim_message
claim_message-id held id who now mail m e =
    claimed_id id now who mail.messages m (in_time (held id) _ _ mail m e).0

pair_eq : {A B : Type 0} (x : A × B) (a : A) (b : B) → x.0 ≡ a → x.1 ≡ b → x ≡ (a, b)
pair_eq x a b p q = λ i. (p i, q i)

-- The loop claims one row, by its id, or changes nothing.
unfoldable pub LoopEnd : (ℕ → Bool) → ℕ → String → Mail → Claimed × Mail → Type 0
LoopEnd held now who mail out =
    (out ≡ (none, mail))
    ⊎ ((i : ℕ) × (m : Message) × (rest : List Message) × (out
          ≡ (some (m, rest), (claim_message held i who now mail).1))
        × ((claim_message held i who now mail).0 ≡ some m))

pub claim_loop-cases :
    (held : ℕ → Bool) (now : ℕ) (who : String) (rows : List Message) (mail : Mail)
    → LoopEnd held now who mail (claim_loop held now who rows mail)
unfolding claim_loop LoopEnd
claim_loop-cases held now who [] mail = inl refl
claim_loop-cases held now who (n ∷ rows) mail =
    let one = claim_message held n.id who now mail in
    elim (Option-cases one.0) [
      | inl nothing ↦
          let same = claim_message-late held n.id who now mail nothing in
          rw (pair_eq one none mail nothing same) (claim_loop-cases held now who rows mail)
      | inr (m, found) ↦ inr (
        n.id,
        m,
        rows,
        ap (λ x. claimed_first x rows (claim_loop held now who rows))
            (pair_eq one (some m) one.1 found refl),
        found,
      )
    ]
