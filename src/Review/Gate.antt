-- ===== src/Review/Gate.antt =====
-- About `check` of core/work_item/_independence.py.
use agent_notes.Prelude.{
  String, ◌≡◌, ◌≢◌, refl, Bool, true, false, none, some, List, ok, err, All, str_eq, Option, [],
  ◌∷◌, inl, inr, Bool-cases, any, Option-cases, starts_with, not_independent,
}
use text.Mathlib.TextEquality.{eq_iff}
use agent_notes.Ops.{Person, Reviewer, Evidence}
use agent_notes.Review.{
  Scan, clash, clear, scan, check, check_model, check_human, evidence, verdict_of,
}

-- The implementer of the lineage, if one is recorded, does not speak against a reviewer.
abbrev pub IsOther : String → String → String → Option String → Type 0
IsOther actor lineage author none = author ≢ actor
IsOther actor lineage author (some l) = l ≢ lineage

-- The lineages differ; where the implementer's is not recorded, the actors do.
abbrev pub IsApart : String → String → Person → Type 0
IsApart actor lineage p = IsOther actor lineage p.actor_id p.lineage

-- One person of the scan.
scan-cons :
    (actor lineage : String) (u v : Bool) (p : Person) (ps : List Person)
    → scan actor lineage u (p ∷ ps) ≡ clear v
    → IsApart actor lineage p × ((w : Bool) × (scan actor lineage w ps ≡ clear v))
unfolding scan
scan-cons actor lineage u v p ps h = elim (Option-cases p.lineage) [
  | inl e ↦ elim (Bool-cases (str_eq p.actor_id actor)) [
    | inl t ↦ cc (rw (e, t) at h)
    | inr f ↦ (rw e (λ same. cc (f, (eq_iff p.actor_id actor).1 same)), (true, rw (e, f) at h))
  ]
  | inr (l, e) ↦ elim (Bool-cases (str_eq l lineage)) [
    | inl t ↦ cc (rw (e, t) at h)
    | inr f ↦ (rw e (λ same. cc (f, (eq_iff l lineage).1 same)), (u, rw (e, f) at h))
  ]
]

scan_sound :
    (actor lineage : String) (u v : Bool) (people : List Person)
    → scan actor lineage u people ≡ clear v
    → All (IsApart actor lineage) people
scan_sound actor lineage u v [] h = tt
scan_sound actor lineage u v (p ∷ ps) h =
    let (apart, (w, rest)) = scan-cons actor lineage u v p ps h in
    (apart, scan_sound actor lineage w v ps rest)

scan_complete :
    (actor lineage : String) (u : Bool) (people : List Person)
    → All (IsApart actor lineage) people
    → (v : Bool) × (scan actor lineage u people ≡ clear v)
unfolding scan
scan_complete actor lineage u [] h = (u, refl)
scan_complete actor lineage u (p ∷ ps) h = elim (Option-cases p.lineage) [
  | inl e ↦ elim (Bool-cases (str_eq p.actor_id actor)) [
    | inl t ↦ absurd ((rw e at h.0) ((eq_iff p.actor_id actor).0 t))
    | inr f ↦ rw (e, f) (scan_complete actor lineage true ps h.1)
  ]
  | inr (l, e) ↦ elim (Bool-cases (str_eq l lineage)) [
    | inl t ↦ absurd ((rw e at h.0) ((eq_iff l lineage).0 t))
    | inr f ↦ rw (e, f) (scan_complete actor lineage u ps h.1)
  ]
]

check_model_sound :
    (people : List Person) (r : Reviewer) (o : Option String) (e : Evidence)
    → check_model r people o ≡ ok e
    → (lineage : String) × (o ≡ some lineage) × All (IsApart r.actor_id lineage) people
unfolding check_model
check_model_sound people r none e h = cc
check_model_sound people r (some lineage) e h = elim (Bool-cases (str_eq lineage "")) [
  | inl t ↦ cc (rw t at h)
  | inr f ↦ (lineage, refl, scanned (scan r.actor_id lineage false people) refl (rw f at h))
]
  where
    scanned :
        (s : Scan)
        → scan r.actor_id lineage false people ≡ s
        → elim s [
          | clash ↦ err not_independent
          | clear unverified ↦ ok (evidence r people (verdict_of unverified people) none)
        ]
          ≡ ok e
        → All (IsApart r.actor_id lineage) people
    scanned clash q h = cc
    scanned (clear v) q h = scan_sound r.actor_id lineage false v people q

-- A reviewer that is not a human and acknowledges nothing is accepted only if its lineage is known
-- and every implementer is apart from it: another lineage, and where the implementer's lineage is
-- not recorded, another actor.
pub check-IsApart :
    (people : List Person) (r : Reviewer) (e : Evidence)
    → starts_with r.actor_id "human:" ≡ false
    → check people r none ≡ ok e
    → (lineage : String) × (r.producer.lineage ≡ some lineage)
      × All (IsApart r.actor_id lineage) people
unfolding check
check-IsApart people r e h c = check_model_sound people r r.producer.lineage e (rw h at c)

-- A reviewer that is not a human, acknowledges nothing and has a non-empty lineage is accepted
-- whenever every implementer is apart from it.
pub check-apart :
    (people : List Person) (r : Reviewer) (lineage : String)
    → starts_with r.actor_id "human:" ≡ false
    → r.producer.lineage ≡ some lineage
    → lineage ≢ ""
    → All (IsApart r.actor_id lineage) people
    → (e : Evidence) × (check people r none ≡ ok e)
unfolding check check_model
check-apart people r lineage h l n a =
    let (v, c) = scan_complete r.actor_id lineage false people a in
    elim (Bool-cases (str_eq lineage "")) [
      | inl t ↦ absurd (n ((eq_iff lineage "").0 t))
      | inr f ↦ (evidence r people (verdict_of v people) none, rw (h, l, f, c) refl)
    ]

any-All :
    (actor : String) (people : List Person)
    → any (λ (p : Person). str_eq p.actor_id actor) people ≡ false
    → All (λ (p : Person). p.actor_id ≢ actor) people
any-All actor [] h = tt
any-All actor (p ∷ ps) h = elim (Bool-cases (str_eq p.actor_id actor)) [
  | inl t ↦ cc (rw t at h)
  | inr f ↦ (λ same. cc (f, (eq_iff p.actor_id actor).1 same), any-All actor ps (rw f at h))
]

-- A human reviewer who acknowledges nothing is accepted only if no implementer is that actor.
pub check-human :
    (people : List Person) (r : Reviewer) (e : Evidence)
    → starts_with r.actor_id "human:" ≡ true
    → check people r none ≡ ok e
    → All (λ (p : Person). p.actor_id ≢ r.actor_id) people
unfolding check check_human
check-human people r e h c =
    elim (Bool-cases (any (λ (p : Person). str_eq p.actor_id r.actor_id) people)) [
      | inl t ↦ cc (rw (h, t) at c)
      | inr f ↦ any-All r.actor_id people f
    ]
