-- ===== src/Kernel/Merging.antt =====
-- About `merge_entity` of core/kernel.py: the ops of a merged chain and their order.
use agent_notes.Prelude.{
  ℕ, ◌<◌, ◌≡◌, ◌≢◌, ◌⊎◌, inl, inr, refl, sym, ap, true, false, List, [], ◌∷◌, ◌++◌, arith,
  Bool-cases, In, All, All-In, In-append, In-append_left, In-append_right, ◌↔◌,
}
use mathlib.Core.Path.{subst, ap₂}
use agent_notes.Ops.{Op}
use agent_notes.Kernel.{not_after, insert_op, sort_ops, is_seen, unique, merge_entity}

-- The strict order of the keys (lamport, op_id).
abbrev pub Before : Op → Op → Type 0
Before x y = (x.lamport < y.lamport) ⊎ (x.lamport ≡ y.lamport) × (x.op_id < y.op_id)

abbrev pub IsSorted : List Op → Type 0
IsSorted [] = Unit
IsSorted (x ∷ xs) = All (Before x) xs × IsSorted xs

-- An op_id names one op, as a content hash does.
abbrev pub IsCoherent : List Op → Type 0
IsCoherent xs = (x y : Op) → In x xs → In y xs → x.op_id ≡ y.op_id → x ≡ y

abbrev IsDistinct : List Op → Type 0
IsDistinct [] = Unit
IsDistinct (x ∷ xs) = All (λ (y : Op). x.op_id ≢ y.op_id) xs × IsDistinct xs

In-insert_op : (x op : Op) (ops : List Op) → In x (insert_op op ops) ↔ ((x ≡ op) ⊎ In x ops)
unfolding insert_op
In-insert_op x op [] = (λ h. h, λ h. h)
In-insert_op x op (y ∷ ops) = elim (Bool-cases (not_after op y)) [
  | inl e ↦ rw e (λ h. h, λ h. h)
  | inr e ↦
      let ih = In-insert_op x op ops in
      rw e (
        λ h. elim h [
          | inl a ↦ inr (inl a)
          | inr b ↦ elim (ih.0 b) [ inl c ↦ inl c | inr d ↦ inr (inr d) ]
        ],
        λ h. elim h [
          | inl a ↦ inr (ih.1 (inl a))
          | inr b ↦ elim b [ inl c ↦ inl c | inr d ↦ inr (ih.1 (inr d)) ]
        ],
      )
]

In-sort_ops : (x : Op) (ops : List Op) → In x (sort_ops ops) ↔ In x ops
unfolding sort_ops
In-sort_ops x [] = (λ h. h, λ h. h)
In-sort_ops x (op ∷ ops) =
    let at = In-insert_op x op (sort_ops ops) in
    let ih = In-sort_ops x ops in
    (
      λ h. elim (at.0 h) [ inl a ↦ inl a | inr b ↦ inr (ih.0 b) ],
      λ h. at.1 (elim h [ inl a ↦ inl a | inr b ↦ inr (ih.1 b) ]),
    )

All-of_In : (P : Op → Type 0) (xs : List Op) → ((x : Op) → In x xs → P x) → All P xs
All-of_In P [] h = tt
All-of_In P (x ∷ xs) h = (h x (inl refl), All-of_In P xs (λ y m. h y (inr m)))

Before-trans : (x y z : Op) → Before x y → Before y z → Before x z
Before-trans x y z p q = omega arith

insert_op-IsSorted :
    (op : Op) (ops : List Op)
    → All (λ (y : Op). op.op_id ≢ y.op_id) ops
    → IsSorted ops
    → IsSorted (insert_op op ops)
unfolding insert_op
insert_op-IsSorted op [] d s = (tt, tt)
insert_op-IsSorted op (y ∷ ops) d s = elim (Bool-cases (not_after op y)) [
  | inl e ↦
      let first : Before op y = ground (arith, d.0) in
      rw e (
        (
          first,
          All-of_In (Before op) ops
              (λ z m. Before-trans op y z first (All-In (Before y) ops s.0 z m)),
        ),
        s,
      )
  | inr e ↦
      let first : Before y op = ground (arith, d.0) in
      rw e (
        All-of_In (Before y) (insert_op op ops) (λ z m. elim ((In-insert_op z op ops).0 m) [
          | inl a ↦ rw a first
          | inr b ↦ All-In (Before y) ops s.0 z b
        ]),
        insert_op-IsSorted op ops d.1 s.1,
      )
]

sort_ops-IsSorted : (ops : List Op) → IsDistinct ops → IsSorted (sort_ops ops)
unfolding sort_ops
sort_ops-IsSorted [] d = tt
sort_ops-IsSorted (op ∷ ops) d =
    insert_op-IsSorted op (sort_ops ops)
      (All-of_In _ (sort_ops ops) (λ y m. All-In _ ops d.0 y ((In-sort_ops y ops).0 m)))
      (sort_ops-IsSorted ops d.1)

unique-skip :
    (seen : List ℕ) (op : Op) (ops : List Op)
    → is_seen op.op_id seen ≡ true
    → unique seen (op ∷ ops) ≡ unique seen ops
unfolding unique
unique-skip seen op ops e = rw (e, unique)

unique-keep :
    (seen : List ℕ) (op : Op) (ops : List Op)
    → is_seen op.op_id seen ≡ false
    → unique seen (op ∷ ops) ≡ op ∷ unique (op.op_id ∷ seen) ops
unfolding unique
unique-keep seen op ops e = rw (e, unique)

is_seen-cons :
    (i j : ℕ) (seen : List ℕ) → is_seen i (j ∷ seen) ≡ false → (i ≢ j) × (is_seen i seen ≡ false)
unfolding is_seen
is_seen-cons i j seen h = ground arith

In-unique :
    (x : Op) (seen : List ℕ) (ops : List Op)
    → In x (unique seen ops)
    → In x ops × (is_seen x.op_id seen ≡ false)
In-unique x seen [] h = absurd (unfold unique in h)
In-unique x seen (op ∷ ops) h = elim (Bool-cases (is_seen op.op_id seen)) [
  | inl e ↦
      let (m, f) = In-unique x seen ops (subst (In x) (unique-skip seen op ops e) h) in (inr m, f)
  | inr e ↦ elim (subst (In x) (unique-keep seen op ops e) h) [
    | inl a ↦ (inl a, rw a e)
    | inr b ↦
        let (m, f) = In-unique x (op.op_id ∷ seen) ops b in
        (inr m, (is_seen-cons x.op_id op.op_id seen f).1)
  ]
]

unique-IsDistinct : (seen : List ℕ) (ops : List Op) → IsDistinct (unique seen ops)
unique-IsDistinct seen [] = unfold unique in tt
unique-IsDistinct seen (op ∷ ops) = elim (Bool-cases (is_seen op.op_id seen)) [
  | inl e ↦ rw (unique-skip seen op ops e) (unique-IsDistinct seen ops)
  | inr e ↦ rw (unique-keep seen op ops e) (
    All-of_In _ (unique (op.op_id ∷ seen) ops) (λ y m same.
        (is_seen-cons y.op_id op.op_id seen (In-unique y (op.op_id ∷ seen) ops m).1).0 (sym same)),
    unique-IsDistinct (op.op_id ∷ seen) ops,
  )
]

is_seen-keep :
    (i j : ℕ) (seen : List ℕ) → is_seen i seen ≡ false → (i ≡ j) ⊎ (is_seen i (j ∷ seen) ≡ false)
unfolding is_seen
is_seen-keep i j seen h = ground arith

-- Of each op_id that is not seen yet, the loop keeps an op.
unique-finds :
    (x : Op) (seen : List ℕ) (ops : List Op)
    → In x ops
    → is_seen x.op_id seen ≡ false
    → (y : Op) × In y (unique seen ops) × (y.op_id ≡ x.op_id)
unique-finds x seen [] m f = absurd m
unique-finds x seen (op ∷ ops) m f = elim (Bool-cases (is_seen op.op_id seen)) [
  | inl e ↦ rw (unique-skip seen op ops e) (elim m [
    | inl a ↦ cc (ap (λ (o : Op). is_seen o.op_id seen) a)
    | inr b ↦ unique-finds x seen ops b f
  ])
  | inr e ↦ rw (unique-keep seen op ops e) (elim m [
    | inl a ↦ (op, inl refl, ap (λ (o : Op). o.op_id) (sym a))
    | inr b ↦ elim (is_seen-keep x.op_id op.op_id seen f) [
      | inl same ↦ (op, inl refl, sym same)
      | inr g ↦ let (y, n, k) = unique-finds x (op.op_id ∷ seen) ops b g in (y, inr n, k)
    ]
  ])
]

-- Over chains that give an op_id one meaning, the merge holds exactly the ops of both chains.
pub In-merge_entity :
    (a b : List Op) (x : Op) → IsCoherent (a ++ b) → In x (merge_entity a b) ↔ (In x a ⊎ In x b)
unfolding merge_entity is_seen
In-merge_entity a b x one = (
  λ h. In-append x a b (In-unique x [] (a ++ b) ((In-sort_ops x (unique [] (a ++ b))).0 h)).0,
  λ h.
      let m : In x (a ++ b) = elim h [
        | inl l ↦ In-append_left x a b l
        | inr r ↦ In-append_right x a b r
      ] in
      let (y, n, same) = unique-finds x [] (a ++ b) m refl in
      let e : x ≡ y = one x y m (In-unique y [] (a ++ b) n).0 (sym same) in
      (In-sort_ops x (unique [] (a ++ b))).1 (rw e n),
)

pub merge_entity-IsSorted : (a b : List Op) → IsSorted (merge_entity a b)
unfolding merge_entity
merge_entity-IsSorted a b = sort_ops-IsSorted (unique [] (a ++ b)) (unique-IsDistinct [] (a ++ b))

Before-irrefl : (x : Op) → ¬ Before x x
Before-irrefl x h = omega arith

sorted_tail :
    (x : Op) (xs ys : List Op)
    → All (Before x) xs
    → ((z : Op) → In z (x ∷ xs) → In z (x ∷ ys))
    → (z : Op) → In z xs
    → In z ys
sorted_tail x xs ys below sub z m = elim (sub z (inr m)) [
  | inl e ↦ absurd (Before-irrefl x (rw e at (All-In (Before x) xs below z m)))
  | inr n ↦ n
]

-- Two strictly sorted chains with the same ops are one list.
pub sorted_ext :
    (xs ys : List Op)
    → IsSorted xs
    → IsSorted ys
    → ((z : Op) → In z xs → In z ys)
    → ((z : Op) → In z ys → In z xs)
    → xs ≡ ys
sorted_ext [] [] s t l r = refl
sorted_ext [] (y ∷ ys) s t l r = absurd (r y (inl refl))
sorted_ext (x ∷ xs) [] s t l r = absurd (l x (inl refl))
sorted_ext (x ∷ xs) (y ∷ ys) s t l r =
    let e : x ≡ y = heads (l x (inl refl)) (r y (inl refl)) in
    let tails : xs ≡ ys =
      sorted_ext xs ys s.1 t.1 (sorted_tail x xs ys s.0 (λ z m. rw e (l z m)))
        (sorted_tail y ys xs t.0 (λ z m. rw (← e) (r z m))) in
    ap₂ ◌∷◌ e tails
  where
    heads : In x (y ∷ ys) → In y (x ∷ xs) → x ≡ y
    heads (inl e) _ = e
    heads (inr m) (inl e) = sym e
    heads (inr m) (inr n) =
        let p : Before y x = All-In (Before y) ys t.0 x m in
        let q : Before x y = All-In (Before x) xs s.0 y n in
        absurd (Before-irrefl x (Before-trans x y x q p))
