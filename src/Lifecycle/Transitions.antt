-- ===== src/Lifecycle/Transitions.antt =====
-- About the transition table of core/lifecycle.py.
use agent_notes.Prelude.{
  [], ◌∷◌, ◌≡◌, refl, ◌↔◌, ◌⊎◌, true, some, arith, eq_iff, ok, inl, inr, ap, All,
}
use agent_notes.Lifecycle.{
  Status, opened, in_progress, blocked, deferred, in_review, in_human_review, done, claimed, closed,
  other, Transition, unblock, defer, resume, request_changes, reject, accept, reopen,
  close_from_open, status_eq, is_valid, is_terminal, is_canonical, transition_for,
  map_legacy_to_canonical, String, List, get_status, legacy_to_canonical,
}

pub status_eq_iff : (a b : Status) → (status_eq a b ≡ true) ↔ (a ≡ b)
unfolding status_eq
status_eq_iff (other s) (other t) = ground (arith, eq_iff s t)
status_eq_iff a b = ground arith

completion_source :
    (s : Status) (t : Transition)
    → transition_for s done ≡ ok (some t)
    → (s ≡ in_human_review) × (t ≡ accept) ⊎ ((s ≡ opened) ⊎ (s ≡ claimed)) × (t ≡ close_from_open)
unfolding transition_for
completion_source (other s) t h = ground arith
completion_source s t h = ground arith

completion_allowed :
    (s : Status) (t : Transition)
    → (s ≡ in_human_review) × (t ≡ accept) ⊎ ((s ≡ opened) ⊎ (s ≡ claimed)) × (t ≡ close_from_open)
    → transition_for s done ≡ ok (some t)
unfolding transition_for
completion_allowed s t (inl (from, by)) = rw (from, by) refl
completion_allowed s t (inr (inl from, by)) = rw (from, by) refl
completion_allowed s t (inr (inr from, by)) = rw (from, by) refl

-- In the transition table exactly two transitions lead to `done`: `accept`, from human review, and the
-- review-exempt `close_from_open`, from `open` or the legacy `claimed`. Each of them is allowed there.
pub completion_sources :
    (s : Status) (t : Transition)
    → (transition_for s done ≡ ok (some t)) ↔ (
        (s ≡ in_human_review) × (t ≡ accept)
        ⊎ ((s ≡ opened) ⊎ (s ≡ claimed)) × (t ≡ close_from_open))
unfolding transition_for
completion_sources s t = (completion_source s t, completion_allowed s t)

-- A terminal status is left only by `reopen`, and only for `open`.
pub terminal_exits :
    (s n : Status) (t : Transition)
    → is_terminal s ≡ true
    → transition_for s n ≡ ok (some t)
    → (t ≡ reopen) × (n ≡ opened)
unfolding transition_for is_terminal
terminal_exits (other s) (other n) t x h = ground arith
terminal_exits s n t x h = ground arith

-- No transition leads to the lease status `claimed`, nor to an unknown status, nor from one.
pub transition_targets :
    (s n : Status) (t : Transition)
    → transition_for s n ≡ ok (some t)
    → (is_valid s ≡ true) × ((is_canonical n ≡ true) ⊎ (n ≡ closed))
unfolding transition_for is_valid
transition_targets (other s) (other n) t h = ground arith
transition_targets s n t h = ground arith

-- One status move that `transition_for` allows, and any number of them.
pub data Move (s n : Status) : Type 0 where
  move : (t : Transition) → transition_for s n ≡ ok (some t) → Move s n

pub data Reach (s : Status) : Status → Type 0 where
  here : Reach s s
  next : {m : Status} (n : Status) → Reach s n → Move n m → Reach s m

reaches_opened : (s : Status) → is_valid s ≡ true → Reach s opened
unfolding transition_for is_valid
reaches_opened opened h = here
reaches_opened in_progress h =
    next deferred (next in_progress here (move defer refl)) (move resume refl)
reaches_opened blocked h =
    next deferred (next in_progress (next blocked here (move unblock refl)) (move defer refl))
      (move resume refl)
reaches_opened deferred h = next deferred here (move resume refl)
reaches_opened in_review h =
    next deferred
      (next in_progress (next in_review here (move request_changes refl)) (move defer refl))
      (move resume refl)
reaches_opened in_human_review h =
    next deferred
      (next in_progress (next in_human_review here (move reject refl)) (move defer refl))
      (move resume refl)
reaches_opened done h = next done here (move reopen refl)
reaches_opened claimed h = next deferred (next claimed here (move defer refl)) (move resume refl)
reaches_opened closed h = next closed here (move reopen refl)
reaches_opened (other s) h = cc

-- No valid status is a dead end: from each the transitions lead on to `done`.
pub done_reachable : (s : Status) → is_valid s ≡ true → Reach s done
unfolding transition_for
done_reachable s h = next opened (reaches_opened s h) (move close_from_open refl)

is_canonical-map_legacy : (s : Status) → is_canonical s ≡ true → map_legacy_to_canonical s ≡ s
unfolding is_canonical map_legacy_to_canonical
is_canonical-map_legacy (other s) h = cc
is_canonical-map_legacy s h = ground arith

abbrev AllCanonical : List (String × Status) → Type 0
AllCanonical table = All (λ entry. is_canonical entry.1 ≡ true) table

get_status-is_canonical :
    (table : List (String × Status)) (s : String) (d : Status)
    → AllCanonical table
    → (is_canonical (get_status table s d) ≡ true) ⊎ (get_status table s d ≡ d)
unfolding get_status
get_status-is_canonical [] s d h = inr refl
get_status-is_canonical ((k, c) ∷ rest) s d h = ground (arith, get_status-is_canonical rest s d h.1)

table-AllCanonical : AllCanonical legacy_to_canonical
unfolding is_canonical
table-AllCanonical = ground arith

map_legacy_cases :
    (s : Status)
    → (is_canonical (map_legacy_to_canonical s) ≡ true) ⊎ (map_legacy_to_canonical s ≡ s)
map_legacy_cases closed = unfold map_legacy_to_canonical is_canonical in inl refl
map_legacy_cases (other s) =
    unfold map_legacy_to_canonical in
    get_status-is_canonical legacy_to_canonical s (other s) table-AllCanonical
map_legacy_cases s = unfold map_legacy_to_canonical in inr refl

map_legacy_again :
    (s : Status) → map_legacy_to_canonical (map_legacy_to_canonical s) ≡ map_legacy_to_canonical s
map_legacy_again s = elim (map_legacy_cases s) [
  | inl c ↦ is_canonical-map_legacy _ c
  | inr e ↦ ap map_legacy_to_canonical e
]

-- All the names stand for the status.
abbrev pub StandFor : Status → List String → Type 0
StandFor s names = All (λ k. map_legacy_to_canonical (other k) ≡ s) names

synonyms :
    StandFor opened ("new" ∷ "proposed" ∷ "decision-pending" ∷ [])
    × StandFor in_progress ("active" ∷ [])
    × StandFor in_review ("under_review" ∷ [])
    × StandFor done ("resolved" ∷ "implemented" ∷ "accepted" ∷ [])
    × StandFor deferred ("wont_fix" ∷ "wontfix" ∷ "duplicate" ∷ "obsolete" ∷ "rejected" ∷ [])
unfolding map_legacy_to_canonical
synonyms = ground arith

-- The synonyms that legacy items use stand for the canonical statuses named here, and `closed` for
-- `done`. A canonical status stays as it is, any status becomes canonical or stays as it is, and
-- mapping again adds nothing.
pub legacy_mapping :
    (s c : Status)
    → is_canonical c ≡ true
    → (StandFor opened ("new" ∷ "proposed" ∷ "decision-pending" ∷ [])
        × StandFor in_progress ("active" ∷ [])
        × StandFor in_review ("under_review" ∷ [])
        × StandFor done ("resolved" ∷ "implemented" ∷ "accepted" ∷ [])
        × StandFor deferred ("wont_fix" ∷ "wontfix" ∷ "duplicate" ∷ "obsolete" ∷ "rejected" ∷ []))
      × (map_legacy_to_canonical closed ≡ done)
      × (map_legacy_to_canonical c ≡ c)
      × ((is_canonical (map_legacy_to_canonical s) ≡ true) ⊎ (map_legacy_to_canonical s ≡ s))
      × (map_legacy_to_canonical (map_legacy_to_canonical s) ≡ map_legacy_to_canonical s)
unfolding map_legacy_to_canonical
legacy_mapping s c h =
    (synonyms, refl, is_canonical-map_legacy c h, map_legacy_cases s, map_legacy_again s)
