-- ===== src/Kernel/Lattice.antt =====
-- The fail-safe resolution of concurrent status ops (`_resolve_status_lattice` of core/kernel.py).
use agent_notes.Prelude.{
  ℕ, ◌+◌, ◌≤◌, ◌<◌, ◌≡◌, ◌⊎◌, inl, inr, refl, sym, ap, ◌∙◌, none, some, Option, List, [], ◌∷◌,
  arith, Option-cases, In, All, All-In,
}
use agent_notes.Prelude.Int.{◌≤ℤ◌, pos_part, neg_part}
use agent_notes.Lifecycle.{Status, rank}
use agent_notes.Ops.{Op}
use agent_notes.Kernel.{
  Winner, new_status, against, challenge, contest, winning_status, resolve_status_lattice,
}

-- (w, i) wins over (s, j): its rank is higher, or it is the same and the op_id is no larger.
abbrev Over : Status → ℕ → Status → ℕ → Type 0
Over w i s j =
    (pos_part (rank s) + neg_part (rank w) < pos_part (rank w) + neg_part (rank s))
    ⊎ (pos_part (rank s) + neg_part (rank w) ≡ pos_part (rank w) + neg_part (rank s)) × (i ≤ j)

abbrev OverRequest : Status → ℕ → Option Status → ℕ → Type 0
OverRequest w i none j = Unit
OverRequest w i (some s) j = Over w i s j

abbrev Under : Status → ℕ → Op → Type 0
Under w i op = OverRequest w i (new_status op) op.op_id

-- (w, i) is what one of the ops asks for.
abbrev From : List Op → Status → ℕ → Type 0
From ops w i = (op : Op) × In op ops × (op.op_id ≡ i) × (new_status op ≡ some w)

-- What the loop over `ops` is to find.
abbrev IsTop : List Op → Winner → Type 0
IsTop ops none = All (λ (op : Op). new_status op ≡ none) ops
IsTop ops (some (w, i)) = From ops w i × All (Under w i) ops

against_cases :
    (w s : Status) (i j : ℕ)
    → (against (some (w, i)) s j ≡ some (w, i)) × Over w i s j
      ⊎ (against (some (w, i)) s j ≡ some (s, j)) × Over s j w i
unfolding against
against_cases w s i j = ground arith

Over-trans : (a b c : Status) (i j k : ℕ) → Over a i b j → Over b j c k → Over a i c k
Over-trans a b c i j k p q = omega arith

-- What one round of the loop makes of a leader (w, i).
record Round (w : Status) (i : ℕ) (op : Op) : Type 0 where
  leader : Status
  leader_id : ℕ
  result : challenge (some (w, i)) op ≡ some (leader, leader_id)
  over_old : Over leader leader_id w i
  over_op : Under leader leader_id op
  origin : (leader ≡ w) × (leader_id ≡ i) ⊎ (op.op_id ≡ leader_id) × (new_status op ≡ some leader)

round : (w : Status) (i : ℕ) (op : Op) → Round w i op
unfolding challenge
round w i op = elim (Option-cases (new_status op)) [
  | inl n ↦ record {
    leader = w;
    leader_id = i;
    result = rw (n, challenge);
    over_old = omega arith;
    over_op = rw n tt;
    origin = inl (refl, refl);
  }
  | inr (s, e) ↦ elim (against_cases w s i op.op_id) [
    | inl (stays, over) ↦ record {
      leader = w;
      leader_id = i;
      result = rw (e, challenge) stays;
      over_old = omega arith;
      over_op = rw e over;
      origin = inl (refl, refl);
    }
    | inr (moves, over) ↦ record {
      leader = s;
      leader_id = op.op_id;
      result = rw (e, challenge) moves;
      over_old = over;
      over_op = rw e (omega arith);
      origin = inr (refl, e);
    }
  ]
]

-- The loop from a leader (w, i).
record Contest (w : Status) (i : ℕ) (ops : List Op) : Type 0 where
  leader : Status
  leader_id : ℕ
  result : contest (some (w, i)) ops ≡ some (leader, leader_id)
  over_old : Over leader leader_id w i
  over_ops : All (Under leader leader_id) ops
  origin : (leader ≡ w) × (leader_id ≡ i) ⊎ From ops leader leader_id

Under-trans : (a b : Status) (i j : ℕ) (op : Op) → Over a i b j → Under b j op → Under a i op
Under-trans a b i j op p h = elim (Option-cases (new_status op)) [
  | inl n ↦ rw n tt
  | inr (s, e) ↦ rw e (Over-trans a b s i j op.op_id p (rw e at h))
]

Contest-from : (w : Status) (i : ℕ) (ops : List Op) → Contest w i ops
unfolding contest
Contest-from w i [] = record {
  leader = w;
  leader_id = i;
  result = refl;
  over_old = omega arith;
  over_ops = tt;
  origin = inl (refl, refl);
}
Contest-from w i (op ∷ ops) =
    let r = round w i op in
    let c = Contest-from r.leader r.leader_id ops in
    record {
      leader = c.leader;
      leader_id = c.leader_id;
      result = rw r.result c.result;
      over_old = Over-trans c.leader r.leader w c.leader_id r.leader_id i c.over_old r.over_old;
      over_ops = (
        Under-trans c.leader r.leader c.leader_id r.leader_id op c.over_old r.over_op,
        c.over_ops,
      );
      origin = elim c.origin [
        | inl (a, b) ↦ elim r.origin [
          | inl (x, y) ↦ inl (a ∙ x, b ∙ y)
          | inr (x, y) ↦ inr (op, inl refl, x ∙ sym b, y ∙ ap some (sym a))
        ]
        | inr (x, m, j, e) ↦ inr (x, inr m, j, e)
      ];
    }

first :
    (op : Op) (ops : List Op) (s : Status)
    → new_status op ≡ some s
    → (c : Contest s op.op_id ops) → IsTop (op ∷ ops) (some (c.leader, c.leader_id))
first op ops s e c = (
  elim c.origin [
    | inl (a, b) ↦ (op, inl refl, sym b, e ∙ ap some (sym a))
    | inr (x, m, j, f) ↦ (x, inr m, j, f)
  ],
  (rw e c.over_old, c.over_ops),
)

-- The loop finds a request of highest rank, the smallest op_id among those, if there is a request.
skip :
    (op : Op) (ops : List Op) (r : Winner) → new_status op ≡ none → IsTop ops r → IsTop (op ∷ ops) r
skip op ops none n h = (n, h)
skip op ops (some (w, i)) n ((x, m, j, e), h) = ((x, inr m, j, e), (rw n tt, h))

contest-IsTop : (ops : List Op) → IsTop ops (contest none ops)
unfolding contest challenge against
contest-IsTop [] = tt
contest-IsTop (op ∷ ops) = elim (Option-cases (new_status op)) [
  | inl n ↦ rw (n, challenge) (skip op ops (contest none ops) n (contest-IsTop ops))
  | inr (s, e) ↦
      let c = Contest-from s op.op_id ops in rw (e, challenge) (rw c.result (first op ops s e c))
]

resolve-contest :
    (op : Op) (ops : List Op) (current : Option Status)
    → resolve_status_lattice (op ∷ ops) current ≡ winning_status (contest none (op ∷ ops))
unfolding resolve_status_lattice
resolve-contest op [] current = elim (Option-cases (new_status op)) [
  | inl n ↦ rw n (rw (n, challenge))
  | inr (s, e) ↦ rw e (rw (e, challenge))
]
resolve-contest op (x ∷ ops) current = refl

-- `rank s ≤ rank w` of two statuses.
abbrev pub RankLe : Status → Status → Type 0
RankLe s w = rank s ≤ℤ rank w

top_fail_safe :
    (ops : List Op) (r : Winner)
    → IsTop ops r
    → (x : Op) (s : Status) → In x ops
    → new_status x ≡ some s
    → (w : Status) × (winning_status r ≡ some w)
      × RankLe s w
      × ((y : Op) × In y ops × (new_status y ≡ some w))
top_fail_safe ops none h x s m e = cc (All-In _ ops h x m)
top_fail_safe ops (some (w, i)) h x s m e =
    let over : Over w i s x.op_id = rw e at (All-In (Under w i) ops h.1 x m) in
    (w, refl, omega arith, (h.0.0, h.0.1, h.0.3))

-- Whenever some op of a group asks for a status, the group resolves to a status that one of its ops
-- asks for and whose rank is at least that of every status asked for: unfinished work wins.
pub resolve_fail_safe :
    (op : Op) (ops : List Op) (current : Option Status) (x : Op) (s : Status)
    → In x (op ∷ ops)
    → new_status x ≡ some s
    → (w : Status) × (resolve_status_lattice (op ∷ ops) current ≡ some w)
      × RankLe s w
      × ((y : Op) × In y (op ∷ ops) × (new_status y ≡ some w))
resolve_fail_safe op ops current x s m e =
    rw (resolve-contest op ops current)
      (top_fail_safe (op ∷ ops) (contest none (op ∷ ops)) (contest-IsTop (op ∷ ops)) x s m e)

-- The two lists hold the same ops, and no two of these share an op_id.
pub record SameOps (xs ys : List Op) : Type 0 where
  pub left : (x : Op) → In x xs → In x ys
  pub right : (x : Op) → In x ys → In x xs
  pub ids : (x y : Op) → In x xs → In y ys → x.op_id ≡ y.op_id → x ≡ y

tops_agree :
    (xs ys : List Op) (r t : Winner)
    → SameOps xs ys
    → IsTop xs r
    → IsTop ys t
    → winning_status r ≡ winning_status t
tops_agree xs ys none none same h k = refl
tops_agree xs ys none (some (w, i)) same h ((x, m, _, e), _) = cc (All-In _ xs h x (same.right x m))
tops_agree xs ys (some (w, i)) none same ((x, m, _, e), _) k = cc (All-In _ ys k x (same.left x m))
tops_agree xs ys (some (w, i)) (some (v, j)) same ((x, m, a, e), h) ((y, n, b, f), k) =
    let down : Over w i v y.op_id = rw f at (All-In (Under w i) xs h y (same.right y n)) in
    let up : Over v j w x.op_id = rw e at (All-In (Under v j) ys k x (same.left x m)) in
    let one : x ≡ y = same.ids x y m n (omega arith) in
    sym e ∙ (ap (λ (o : Op). new_status o) one ∙ f)

-- Two groups that hold the same ops, where an op_id names one op, resolve to the same status: the
-- order in which the ops are read does not matter, nor do repeats.
pub resolve_order_free :
    (op op' : Op) (ops ops' : List Op) (current : Option Status)
    → SameOps (op ∷ ops) (op' ∷ ops')
    → resolve_status_lattice (op ∷ ops) current ≡ resolve_status_lattice (op' ∷ ops') current
resolve_order_free op op' ops ops' current same =
    rw (resolve-contest op ops current, resolve-contest op' ops' current)
      (tops_agree (op ∷ ops) (op' ∷ ops') _ _ same (contest-IsTop (op ∷ ops))
        (contest-IsTop (op' ∷ ops')))
