-- ===== src/Kernel/Convergence.antt =====
-- About `merge_entity` of core/kernel.py on the chains of two and of three replicas.
use agent_notes.Prelude.{
  ◌≡◌, ◌⊎◌, inl, inr, List, ◌++◌, In, In-append, In-append_left, In-append_right, ◌↔◌,
}
use agent_notes.Ops.{Op}
use agent_notes.Kernel.{merge_entity}
use agent_notes.Kernel.Merging.{IsCoherent, In-merge_entity, merge_entity-IsSorted, sorted_ext}

IsCoherent-swap : (a b : List Op) → IsCoherent (a ++ b) → IsCoherent (b ++ a)
IsCoherent-swap a b one x y m n = one x y (swap x m) (swap y n)
  where
    swap : (z : Op) → In z (b ++ a) → In z (a ++ b)
    swap z m = elim (In-append z b a m) [
      | inl h ↦ In-append_right z a b h
      | inr h ↦ In-append_left z a b h
    ]

-- Over two chains that give each op_id one meaning, both replicas compute one chain, whichever of
-- the two they call local: `merge_entity` commutes.
pub merge_entity_comm : (a b : List Op) → IsCoherent (a ++ b) → merge_entity a b ≡ merge_entity b a
merge_entity_comm a b one =
    sorted_ext (merge_entity a b) (merge_entity b a) (merge_entity-IsSorted a b)
      (merge_entity-IsSorted b a) (λ z. over z one back) (λ z. over' z)
  where
    back : IsCoherent (b ++ a)
    back = IsCoherent-swap a b one

    over :
        (z : Op)
        → IsCoherent (a ++ b)
        → IsCoherent (b ++ a)
        → In z (merge_entity a b)
        → In z (merge_entity b a)
    over z p q m =
        (In-merge_entity b a z q).1
          (elim ((In-merge_entity a b z p).0 m) [ inl h ↦ inr h | inr h ↦ inl h ])

    over' : (z : Op) → In z (merge_entity b a) → In z (merge_entity a b)
    over' z m =
        (In-merge_entity a b z one).1
          (elim ((In-merge_entity b a z back).0 m) [ inl h ↦ inr h | inr h ↦ inl h ])

-- Coherence passes to chains that hold no other ops.
IsCoherent-within :
    (xs ys : List Op) → ((z : Op) → In z xs → In z ys) → IsCoherent ys → IsCoherent xs
IsCoherent-within xs ys sub one x y m n = one x y (sub x m) (sub y n)

module _ (a b c : List Op) (one : IsCoherent (a ++ (b ++ c))) where
  abbrev Any : Op → Type 0
  Any z = In z a ⊎ (In z b ⊎ In z c)

  from_Any : (z : Op) → Any z → In z (a ++ (b ++ c))
  from_Any z (inl h) = In-append_left z a (b ++ c) h
  from_Any z (inr (inl h)) = In-append_right z a (b ++ c) (In-append_left z b c h)
  from_Any z (inr (inr h)) = In-append_right z a (b ++ c) (In-append_right z b c h)

  IsCoherent-of : (xs : List Op) → ((z : Op) → In z xs → Any z) → IsCoherent xs
  IsCoherent-of xs sub = IsCoherent-within xs (a ++ (b ++ c)) (λ z m. from_Any z (sub z m)) one

  first_two : (z : Op) → In z (merge_entity a b) ↔ (In z a ⊎ In z b)
  first_two z = In-merge_entity a b z (
      IsCoherent-of (a ++ b)
        λ x m. elim (In-append x a b m) [ inl h ↦ inl h | inr h ↦ inr (inl h) ])

  last_two : (z : Op) → In z (merge_entity b c) ↔ (In z b ⊎ In z c)
  last_two z = In-merge_entity b c z (IsCoherent-of (b ++ c) λ x m. inr (In-append x b c m))

  left_first : (z : Op) → In z (merge_entity (merge_entity a b) c) ↔ Any z
  left_first z =
      let all =
        In-merge_entity (merge_entity a b) c z (IsCoherent-of (merge_entity a b ++ c) within) in
      (
        λ m. elim (all.0 m) [
          | inl h ↦ elim ((first_two z).0 h) [ inl k ↦ inl k | inr k ↦ inr (inl k) ]
          | inr h ↦ inr (inr h)
        ],
        λ m. all.1 (elim m [
          | inl h ↦ inl ((first_two z).1 (inl h))
          | inr h ↦ elim h [ inl k ↦ inl ((first_two z).1 (inr k)) | inr k ↦ inr k ]
        ]),
      )
    where
      within : (x : Op) → In x (merge_entity a b ++ c) → Any x
      within x m = elim (In-append x (merge_entity a b) c m) [
        | inl h ↦ elim ((first_two x).0 h) [ inl k ↦ inl k | inr k ↦ inr (inl k) ]
        | inr h ↦ inr (inr h)
      ]

  right_first : (z : Op) → In z (merge_entity a (merge_entity b c)) ↔ Any z
  right_first z =
      let all =
        In-merge_entity a (merge_entity b c) z (IsCoherent-of (a ++ merge_entity b c) within) in
      (
        λ m. elim (all.0 m) [ inl h ↦ inl h | inr h ↦ inr ((last_two z).0 h) ],
        λ m. all.1 (elim m [ inl h ↦ inl h | inr h ↦ inr ((last_two z).1 h) ]),
      )
    where
      within : (x : Op) → In x (a ++ merge_entity b c) → Any x
      within x m = elim (In-append x a (merge_entity b c) m) [
        | inl h ↦ inl h
        | inr h ↦ inr ((last_two x).0 h)
      ]

  -- Over three chains that give each op_id one meaning, the order in which they are merged does not
  -- matter: `merge_entity` associates.
  pub merge_entity_assoc : merge_entity (merge_entity a b) c ≡ merge_entity a (merge_entity b c)
  merge_entity_assoc =
      sorted_ext _ _ (merge_entity-IsSorted (merge_entity a b) c)
        (merge_entity-IsSorted a (merge_entity b c)) (λ z m. (right_first z).1 ((left_first z).0 m))
        (λ z m. (left_first z).1 ((right_first z).0 m))
