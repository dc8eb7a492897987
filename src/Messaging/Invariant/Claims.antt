-- ===== src/Messaging/Invariant/Claims.antt =====
-- The invariant and the calls of core/messaging.py that claim and release.
use agent_notes.Prelude.{
  ℕ, String, ◌≡◌, refl, ◌<◌, Bool, true, false, Option, List, [], ◌∷◌, All, arith, Bool-cases, inl,
  inr, zero, suc, not, ◌&&◌, In,
}
use agent_notes.Messaging.{Message, Mail, Session}
use agent_notes.Messaging.Table.{take, update_where, is_any}
use agent_notes.Messaging.Sending.{is_notice}
use agent_notes.Messaging.Delivery.{IsAscending, selected_above}
use agent_notes.Messaging.Claiming.{
  claim, claim_ids, claim_as, claimable, selected, chosen, claim_requests, claim_message,
  awaits_claim, requested, unclaim, is_held_by, release_claims,
}
use agent_notes.Messaging.Waking.{claim_row, free_row}
use agent_notes.Messaging.Invariant.{
  IsStored, checks, promises, IsMailSound, update_where-IsAscending, All-In,
}

All-update_within :
    {A : Type 0} (P : A → Type 0) (p q : A → Bool) (f : A → A)
    → ((a : A) → P a → p a ≡ true → P (f a))
    → (rows : List A) → All P rows
    → All (λ a. (q a && not (p a)) ≡ false) rows
    → All P (update_where q f rows)
unfolding update_where
All-update_within P p q f keeps [] h within = tt
All-update_within P p q f keeps (m ∷ rows) h within =
    let rest = All-update_within P p q f keeps rows h.1 within.1 in
    elim (Bool-cases (q m)) [
      | inl e ↦ rw e (keeps m h.0 (ground arith), rest)
      | inr e ↦ rw e (h.0, rest)
    ]

abbrev Within : List ℕ → (Message → Bool) → List Message → Type 0
Within ids p rows = All (λ m. (chosen ids m && not (p m)) ≡ false) rows

Within-later :
    (i : ℕ) (ids : List ℕ) (p : Message → Bool) (rows : List Message)
    → All (λ (n : Message). i < n.id) rows
    → Within ids p rows
    → Within (i ∷ ids) p rows
unfolding is_any
Within-later i ids p [] above h = tt
Within-later i ids p (m ∷ rows) above h = (ground arith, Within-later i ids p rows above.1 h.1)

Within-nothing : (p : Message → Bool) (rows : List Message) → Within [] p rows
unfolding is_any
Within-nothing p [] = tt
Within-nothing p (m ∷ rows) = (ground arith, Within-nothing p rows)

same_ids :
    (p : Message → Bool) (ids js : List ℕ)
    → ids ≡ js
    → (rows : List Message) → Within ids p rows
    → Within js p rows
same_ids p ids js e [] h = tt
same_ids p ids js e (m ∷ rows) h = (rw⁻¹ e h.0, same_ids p ids js e rows h.1)

-- Every row that the UPDATE takes passes the test of the subselect.
chosen-Within :
    (p : Message → Bool) (limit : ℕ) (rows : List Message)
    → IsAscending rows
    → Within (selected limit p rows) p rows
unfolding take is_any
chosen-Within p zero rows h = Within-nothing p rows
chosen-Within p (suc limit) [] h = tt
chosen-Within p (suc limit) (m ∷ rows) h = elim (Bool-cases (p m)) [
  | inl e ↦
      let ids = selected limit p rows in
      let same : m.id ∷ ids ≡ selected (suc limit) p (m ∷ rows) = ground arith in
      (
        ground arith,
        same_ids p _ _ same rows
            (Within-later m.id ids p rows h.0 (chosen-Within p limit rows h.1)),
      )
  | inr e ↦
      let ids = selected (suc limit) p rows in
      let above = selected_above m.id (suc limit) p rows h.0 in
      let same : ids ≡ selected (suc limit) p (m ∷ rows) = ground arith in
      (ground arith, same_ids p _ _ same rows (chosen-Within p (suc limit) rows h.1))
]

abbrev pub may_claim : Message → Bool
may_claim m = not (is_notice m.kind)

claim_as-IsStored :
    (who : String) (now next : ℕ) (m : Message)
    → IsStored next m
    → may_claim m ≡ true
    → IsStored next (claim_as who now m)
unfolding checks promises
claim_as-IsStored who now next m h free = (h.0, ground arith, h.2)

unclaim-IsStored : (next : ℕ) (m : Message) → IsStored next m → IsStored next (unclaim m)
unfolding checks promises
unclaim-IsStored next m h = (h.0, ground arith, h.2)

-- An UPDATE of some rows that keeps their ids and what is stored keeps the mailbox sound.
update-IsMailSound :
    (p q : Message → Bool) (f : Message → Message) (mail : Mail)
    → ((m : Message) → (f m).id ≡ m.id)
    → ((m : Message) → IsStored mail.next_id m → p m ≡ true → IsStored mail.next_id (f m))
    → All (λ m. (q m && not (p m)) ≡ false) mail.messages
    → IsMailSound mail
    → IsMailSound (record mail { messages = update_where q f mail.messages })
update-IsMailSound p q f mail same keeps within h = (
  All-update_within (IsStored mail.next_id) p q f keeps mail.messages h.0 within,
  update_where-IsAscending q f same mail.messages h.1,
  h.2,
)

selected-IsMailSound :
    (p : Message → Bool) (who : String) (limit now : ℕ) (mail : Mail)
    → ((m : Message) → p m ≡ true → may_claim m ≡ true)
    → IsMailSound mail
    → IsMailSound (claim_ids (selected limit p mail.messages) who now mail).1
unfolding claim_ids
selected-IsMailSound p who limit now mail free h =
    update-IsMailSound p (chosen (selected limit p mail.messages)) (claim_as who now) mail
      (λ m. refl) (λ m stored e. claim_as-IsStored who now mail.next_id m stored (free m e))
      (chosen-Within p limit mail.messages h.1) h

pub claim-IsMailSound :
    (held : ℕ → Bool) (p : Message → Bool) (who : String) (limit now : ℕ) (mail : Mail)
    → IsMailSound mail
    → IsMailSound (claim held p who limit now mail).1
unfolding claim
claim-IsMailSound held p who limit now mail h =
    selected-IsMailSound (claimable held p) who limit now mail (λ m e. ground arith) h

pub claim_requests-IsMailSound :
    (held : ℕ → Bool) (vm : String) (limit : ℕ) (who : Option String) (now : ℕ) (mail : Mail)
    → IsMailSound mail
    → IsMailSound (claim_requests held vm limit who now mail).1
unfolding claim_requests
claim_requests-IsMailSound held vm limit who now mail h =
    selected-IsMailSound (requested held vm now) _ limit now mail (λ m e. ground arith) h

within_itself :
    (p q : Message → Bool) (rows : List Message)
    → ((m : Message) → q m ≡ true → p m ≡ true)
    → All (λ m. (q m && not (p m)) ≡ false) rows
within_itself p q [] h = tt
within_itself p q (m ∷ rows) h = let here = h m in (ground arith, within_itself p q rows h)

pub claim_message-IsMailSound :
    (held : ℕ → Bool) (id : ℕ) (who : String) (now : ℕ) (mail : Mail)
    → IsMailSound mail
    → IsMailSound (claim_message held id who now mail).1
unfolding claim_message
claim_message-IsMailSound held id who now mail h =
    let within =
      within_itself may_claim (awaits_claim id now) mail.messages (λ m e. ground arith) in
    let updated =
      update-IsMailSound may_claim (awaits_claim id now) (claim_as who now) mail (λ m. refl)
        (claim_as-IsStored who now mail.next_id) within h in
    elim (Bool-cases (held id)) [ inl e ↦ rw e h | inr e ↦ rw e updated ]

pub release_claims-IsMailSound :
    (ids : List ℕ) (who : String) (mail : Mail)
    → IsMailSound mail
    → IsMailSound (release_claims ids who mail).1
unfolding release_claims
release_claims-IsMailSound ids who mail h =
    update-IsMailSound (is_held_by ids who) (is_held_by ids who) unclaim mail (λ m. refl)
      (λ m stored e. unclaim-IsStored mail.next_id m stored)
      (within_itself (is_held_by ids who) (is_held_by ids who) mail.messages (λ m e. e)) h

later_apart :
    (held : ℕ → Bool) (i : ℕ) (rows : List Message)
    → All (λ (n : Message). i < n.id) rows
    → All (λ n. (free_row held i n && not (may_claim n)) ≡ false) rows
later_apart held i [] h = tt
later_apart held i (n ∷ rows) h = (ground arith, later_apart held i rows h.1)

-- The id of a row names that row only.
row_within :
    (held : ℕ → Bool) (m : Message) (rows : List Message)
    → IsAscending rows
    → In m rows
    → may_claim m ≡ true
    → All (λ n. (free_row held m.id n && not (may_claim n)) ≡ false) rows
row_within held m [] h here free = absurd here
row_within held m (n ∷ rows) h (inl same) free =
    let free_n : may_claim n ≡ true = rw⁻¹ same free in
    let above : All (λ (k : Message). m.id < k.id) rows = rw same h.0 in
    (ground arith, later_apart held m.id rows above)
row_within held m (n ∷ rows) h (inr there) free =
    let above = All-In (λ (k : Message). n.id < k.id) rows h.0 m there in
    (ground arith, row_within held m rows h.1 there free)

pub claim_row-IsMailSound :
    (held : ℕ → Bool) (now : ℕ) (s : Session) (m : Message) (mail : Mail)
    → In m mail.messages
    → may_claim m ≡ true
    → IsMailSound mail
    → IsMailSound (claim_row held now s m.id mail).1
unfolding claim_row
claim_row-IsMailSound held now s m mail here free h =
    update-IsMailSound may_claim (free_row held m.id) (claim_as s.session_key now) mail (λ n. refl)
      (claim_as-IsStored s.session_key now mail.next_id)
      (row_within held m mail.messages h.1 here free) h
