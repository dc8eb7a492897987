-- ===== src/Messaging/Delivery.antt =====
-- About `_claim`, `claim_deliverable` and `count_deliverable` of core/messaging.py.
use agent_notes.Prelude.{
  ℕ, String, ◌≡◌, refl, ap, ◌<◌, Bool, true, false, none, some, List, [], ◌∷◌, map, All, arith,
  length, filter, Bool-cases, inl, inr, zero, suc, if◌then◌else◌, ltb, ◌-◌, ◌∙◌, ◌&&◌, not,
}
use agent_notes.Messaging.{notice, Message, Mail, Outcome, done, ◌>>=◌, raised}
use agent_notes.Messaging.Table.{take, update_where, returning, is_any, get_session, project_of}
use agent_notes.Messaging.Claiming.{
  claim, claim_ids, claim_as, claimable, selected, chosen, unclaimed, claim_deliverable,
  count_deliverable, deliverable, countable, matches, claimer, Addressee, addressee,
}

-- The order of the table by id.
abbrev pub IsAscending : List Message → Type 0
IsAscending [] = Unit
IsAscending (m ∷ rows) = All (λ (n : Message). m.id < n.id) rows × IsAscending rows

returning_cong :
    (p q : Message → Bool) (f : Message → Message) (rows : List Message)
    → All (λ m. p m ≡ q m) rows
    → returning p f rows ≡ returning q f rows
unfolding returning
returning_cong p q f [] h = refl
returning_cong p q f (m ∷ rows) h = rw h.0 (rw (returning_cong p q f rows h.1) refl)

-- Rows behind the first are chosen alike with and without its id.
chosen_later :
    (i : ℕ) (ids : List ℕ) (rows : List Message)
    → All (λ (n : Message). i < n.id) rows
    → All (λ m. chosen (i ∷ ids) m ≡ chosen ids m) rows
unfolding is_any
chosen_later i ids [] h = tt
chosen_later i ids (m ∷ rows) h = (ground (arith), chosen_later i ids rows h.1)

pub selected_above :
    (i limit : ℕ) (p : Message → Bool) (rows : List Message)
    → All (λ (n : Message). i < n.id) rows
    → is_any i (selected limit p rows) ≡ false
unfolding is_any take
selected_above i zero p rows h = refl
selected_above i (suc limit) p [] h = refl
selected_above i (suc limit) p (m ∷ rows) h =
    ground (arith, selected_above i limit p rows, selected_above i (suc limit) p rows)

returning_nothing :
    (f : Message → Message) (rows : List Message) → returning (chosen []) f rows ≡ []
unfolding returning is_any
returning_nothing f [] = refl
returning_nothing f (m ∷ rows) = ground (arith, returning_nothing f rows)

-- The UPDATE over a subselect takes what the subselect gives, in its order.
pub returning-selected :
    (p : Message → Bool) (f : Message → Message) (limit : ℕ) (rows : List Message)
    → IsAscending rows
    → ((m : Message) → p m ≡ true → unclaimed m ≡ true)
    → returning (chosen (selected limit p rows)) f rows ≡ map f (take limit (filter p rows))
unfolding returning take is_any
returning-selected p f zero rows h free = returning_nothing f rows
returning-selected p f (suc limit) [] h free = refl
returning-selected p f (suc limit) (m ∷ rows) h free = elim (Bool-cases (p m)) [
  | inl e ↦
      let ids = selected limit p rows in
      let later = returning_cong _ _ f rows (chosen_later m.id ids rows h.0) in
      let rest = returning-selected p f limit rows h.1 free in let taken = free m e in ground arith
  | inr e ↦
      let above = selected_above m.id (suc limit) p rows h.0 in
      let rest = returning-selected p f (suc limit) rows h.1 free in ground arith
]

update_where_cong :
    (p q : Message → Bool) (f : Message → Message) (rows : List Message)
    → All (λ m. p m ≡ q m) rows
    → update_where p f rows ≡ update_where q f rows
unfolding update_where
update_where_cong p q f [] h = refl
update_where_cong p q f (m ∷ rows) h = rw h.0 (rw (update_where_cong p q f rows h.1) refl)

update_where_nothing :
    (f : Message → Message) (rows : List Message) → update_where (chosen []) f rows ≡ rows
unfolding update_where is_any
update_where_nothing f [] = refl
update_where_nothing f (m ∷ rows) = ground (arith, update_where_nothing f rows)

-- What the subselect finds after the UPDATE: the rows that were over the limit.
remaining :
    (p : Message → Bool) (f : Message → Message) (limit : ℕ) (rows : List Message)
    → IsAscending rows
    → ((m : Message) → p m ≡ true → unclaimed m ≡ true)
    → ((m : Message) → p (f m) ≡ false)
    → length (filter p (update_where (chosen (selected limit p rows)) f rows))
      ≡ length (filter p rows) - limit
unfolding update_where take is_any
remaining p f zero rows h free gone = rw (update_where_nothing f rows) (omega arith)
remaining p f (suc limit) [] h free gone = omega arith
remaining p f (suc limit) (m ∷ rows) h free gone = elim (Bool-cases (p m)) [
  | inl e ↦
      let ids = selected limit p rows in
      let later = update_where_cong _ _ f rows (chosen_later m.id ids rows h.0) in
      let rest = remaining p f limit rows h.1 free gone in
      let taken = free m e in let off = gone m in ground arith
  | inr e ↦
      let above = selected_above m.id (suc limit) p rows h.0 in
      let rest = remaining p f (suc limit) rows h.1 free gone in ground arith
]

length-map : (f : Message → Message) (rows : List Message) → length (map f rows) ≡ length rows
length-map f [] = refl
length-map f (m ∷ rows) = ap suc (length-map f rows)

abbrev pub at_most : ℕ → ℕ → ℕ
at_most limit n = if ltb limit n then limit else n

length-take : (n : ℕ) (rows : List Message) → length (take n rows) ≡ at_most n (length rows)
unfolding take
length-take zero rows = ground arith
length-take (suc n) [] = ground arith
length-take (suc n) (m ∷ rows) = ground (arith, length-take n rows)

filter_cong :
    (p q : Message → Bool) (rows : List Message)
    → ((m : Message) → p m ≡ q m)
    → filter p rows ≡ filter q rows
filter_cong p q [] h = refl
filter_cong p q (m ∷ rows) h = rw (h m) (rw (filter_cong p q rows h) refl)

claim_lem :
    (held : ℕ → Bool) (p : Message → Bool) (who : String) (limit now : ℕ) (mail : Mail)
    → IsAscending mail.messages
    → (claim held p who limit now mail).0
      ≡ map (claim_as who now) (take limit (filter (claimable held p) mail.messages))
unfolding claim
claim_lem held p who limit now mail h =
    returning-selected (claimable held p) (claim_as who now) limit mail.messages h
      (λ m e. ground arith)

-- A row is free: nobody has claimed it, no other transaction holds it, and it is not a notice.
abbrev pub is_free : (ℕ → Bool) → Message → Bool
is_free held m = elim m.claimed_by [
  | some who ↦ false
  | none ↦ elim m.kind [ notice ↦ false | _ ↦ not (held m.id) ]
]

claimable_lem :
    (held : ℕ → Bool) (p : Message → Bool) (m : Message)
    → claimable held p m ≡ (is_free held m && p m)
claimable_lem held p m = ground arith

-- A claim returns the oldest rows that it is asked for and that are free, up to its limit, each under
-- the claimer's name: no notice, none that another has claimed or holds.
pub claim-oldest :
    (held : ℕ → Bool) (p : Message → Bool) (who : String) (limit now : ℕ) (mail : Mail)
    → IsAscending mail.messages
    → (claim held p who limit now mail).0
      ≡ map (claim_as who now) (take limit (filter (λ m. is_free held m && p m) mail.messages))
claim-oldest held p who limit now mail h =
    claim_lem held p who limit now mail h
    ∙ ap (λ rows. map (claim_as who now) (take limit rows))
        (filter_cong _ _ mail.messages (claimable_lem held p))

counts :
    (who : Addressee) (wake_only : Bool) (now : ℕ) (m : Message)
    → claimable (λ i. false) (deliverable who false wake_only now) m ≡ countable who wake_only now m
unfolding matches
counts who wake_only now m = ground arith

done-of :
    {A B : Type 0} (o : Outcome A) (f : A → B) (b : B)
    → (o >>= λ a. done (f a)) ≡ done b
    → (a : A) × (o ≡ done a) × (f a ≡ b)
done-of (done a) f b h = (a, refl, ground arith)
done-of (raised e) f b h = ground arith

addressee_kept :
    (session : String) (rows : List Message) (mail : Mail)
    → addressee "" (some session) none none none (record mail { messages = rows })
      ≡ addressee "" (some session) none none none mail
unfolding addressee get_session project_of
addressee_kept session rows mail = refl

module _ (who : Addressee) (wake_only : Bool) (limit now : ℕ) (mail : Mail) where
  abbrev taken : List Message × Mail
  taken = claim (λ i. false) (deliverable who false wake_only now) (claimer who) limit now mail

  abbrev counted : Mail → ℕ
  counted m = length (filter (countable who wake_only now) m.messages)

  counted_same :
      (rows : List Message)
      → filter (claimable (λ i. false) (deliverable who false wake_only now)) rows
        ≡ filter (countable who wake_only now) rows
  counted_same rows = filter_cong _ _ rows (counts who wake_only now)

  taken_length : IsAscending mail.messages → length taken.0 ≡ at_most limit (counted mail)
  taken_length h =
      rw
        (claim_lem (λ i. false) (deliverable who false wake_only now) (claimer who) limit now mail
          h)
        (rw (counted_same mail.messages) (length-map _ _ ∙ length-take limit _))

  taken_rest : IsAscending mail.messages → counted taken.1 ≡ counted mail - limit
  unfolding claim claim_ids
  taken_rest h = rw⁻¹ (counted_same taken.1.messages) (
      rw⁻¹ (counted_same mail.messages) (
        remaining _ (claim_as (claimer who) now) limit mail.messages h (λ m e. ground arith)
          (λ m. refl)))

  count_after :
      (session : String)
      → IsAscending mail.messages
      → addressee "" (some session) none none none mail ≡ done who
      → count_deliverable session wake_only now taken.1 ≡ done (counted mail - limit)
  unfolding count_deliverable claim claim_ids
  count_after session h found =
      rw (addressee_kept session taken.1.messages mail) (rw found (ap done (taken_rest h)))

-- Where no row is locked, `count_deliverable` is what `claim_deliverable` takes, as far as the limit
-- goes, and after the claim it counts the rest.
pub claim_deliverable-count_deliverable :
    (session : String) (wake_only : Bool) (limit now : ℕ) (mail after : Mail) (rows : List Message)
    → IsAscending mail.messages
    → claim_deliverable (λ i. false) session false wake_only limit now mail ≡ done (rows, after)
    → (n : ℕ) × (count_deliverable session wake_only now mail ≡ done n)
      × (length rows ≡ at_most limit n)
      × (count_deliverable session wake_only now after ≡ done (n - limit))
unfolding claim_deliverable count_deliverable
claim_deliverable-count_deliverable session wake_only limit now mail after rows h e =
    let who_of = addressee "" (some session) none none none in
    let (who, found, taken) = done-of (who_of mail) _ (rows, after) e in
    let n = length (filter (countable who wake_only now) mail.messages) in
    (
      n,
      rw found refl,
      rw⁻¹ (ap (λ t. t.0) taken) (taken_length who wake_only limit now mail h),
      rw⁻¹ (ap (λ t. t.1) taken) (count_after who wake_only limit now mail session h found),
    )
