-- ===== src/WorkItem/Leasing.antt =====
-- About the lease table of `claim_work_item` in core/work_item/_native.py.
use mathlib.Core.Path.{subst}
use agent_notes.Prelude.{
  ◌∙◌, ap, sym, ℕ, String, ◌≡◌, ◌<◌, ◌+◌, refl, true, false, some, List, [], ◌∷◌, arith, ok,
  Bool-cases, inl, inr, ◌==◌, Option,
}
use agent_notes.Lifecycle.{is_open}
use agent_notes.Ops.{Op, work_item, claim}
use agent_notes.Store.{
  EventType, ChangeType, Db, Host, Lease, reads, pure, require, ◌>>=◌, commit_op, emit_event,
  claim_granted, refold, write_change,
}
use agent_notes.Store.Rows.{Row, find_row}
use agent_notes.Store.Steps.{ran}
use agent_notes.Store.Chain.{refold_lem}
use agent_notes.WorkItem.{seal_for_write}
use agent_notes.WorkItem.Approval.Running.{sealed_call}
use agent_notes.WorkItem.Leases.{
  find_lease, put_lease, is_live, grant_lease, claim_work_item, write_claim, claim_payload,
}

record IsHeld (e : ℕ) (actor : String) (expires : ℕ) (leases : List Lease) : Type 0 where
  lease : Lease
  found : find_lease e leases ≡ some lease
  holder : lease.actor_id ≡ actor
  until : lease.expires_at ≡ expires

abbrev given : ℕ → String → ℕ → ℕ → ℕ → Lease
given e actor now expires count = record {
  entity_id = e;
  actor_id = actor;
  acquired_at = now;
  expires_at = expires;
  heartbeat_count = count;
}

put_lease-IsHeld :
    (e : ℕ) (actor : String) (now expires : ℕ) (leases : List Lease)
    → IsHeld e actor expires (put_lease e actor now expires leases)
unfolding find_lease put_lease
put_lease-IsHeld e actor now expires [] = record {
  lease = given e actor now expires 0;
  found = ground arith;
  holder = refl;
  until = refl;
}
put_lease-IsHeld e actor now expires (l ∷ ls) = elim (Bool-cases (l.entity_id == e)) [
  | inl t ↦ rw t (record {
    lease = given e actor now expires (l.heartbeat_count + 1);
    found = ground (arith, t);
    holder = refl;
    until = refl;
  })
  | inr f ↦
      let h = put_lease-IsHeld e actor now expires ls in
      rw f (record { lease = h.lease; found = rw f h.found; holder = h.holder; until = h.until })
]

-- A granted lease of a positive ttl is in the table under the claiming actor, and live.
pub grant_lease-live :
    (host : Host) (e ttl : ℕ) (db : Db) (u : Unit {0}) (end : Db)
    → 0 < ttl
    → grant_lease host e ttl db ≡ ok (u, end)
    → (l : Lease) × (find_lease e end.work_item_leases ≡ some l)
      × (l.actor_id ≡ host.actor_id)
      × (is_live host.now (some l) ≡ true)
unfolding grant_lease
grant_lease-live host e ttl db u end positive returned =
    let h = put_lease-IsHeld e host.actor_id host.now (host.now + ttl) db.work_item_leases in
    let later : is_live host.now (some h.lease) ≡ true = ground (arith, h.until) in
    let leases = put_lease e host.actor_id host.now (host.now + ttl) db.work_item_leases in
    let result : leases ≡ end.work_item_leases = ground (arith, returned) in
    (h.lease, ap (find_lease e) (sym result) ∙ h.found, h.holder, later)

-- A live lease of the actor.
abbrev pub Holds : Host → ℕ → List Lease → Type 0
Holds host e leases =
    (l : Lease) × (find_lease e leases ≡ some l)
    × (l.actor_id ≡ host.actor_id)
    × (is_live host.now (some l) ≡ true)

event_lem :
    (op : Op) (e : ℕ) (i : String) (t : EventType) (db : Db) (u : Unit {0}) (end : Db)
    → emit_event op e i t db ≡ ok (u, end)
    → db.work_item_leases ≡ end.work_item_leases
unfolding emit_event
event_lem op e i t db u end h = ground arith

change_lem :
    (w p : ℕ) (i : String) (t : ChangeType) (actor : Option String) (folded : Row) (db : Db)
    (row : Row) (end : Db)
    → (write_change w p i t actor >>= λ _. pure folded) db ≡ ok (row, end)
    → db.work_item_leases ≡ end.work_item_leases
unfolding write_change ◌>>=◌ pure
change_lem w p i t actor folded db row end h = ground arith

write_claim-Holds :
    (host : Host) (w p : ℕ) (i : String) (ttl : ℕ) (old : Row) (db : Db) (row : Row) (end : Db)
    → 0 < ttl
    → write_claim host w p i ttl old db ≡ ok (row, end)
    → Holds host old.entity_id end.work_item_leases
unfolding write_claim
write_claim-Holds host w p i ttl old db row end positive h =
    let e = old.entity_id in
    let c =
      ran (commit_op host (some e) work_item claim (claim_payload host ttl) (e ∷ [])) _ db row end
        h in
    let g = ran (grant_lease host e ttl) _ c.middle row end c.rest in
    let v = ran (emit_event c.value e i claim_granted) _ g.middle row end g.rest in
    let f = ran (refold e) _ v.middle row end v.rest in
    let event = event_lem c.value e i claim_granted g.middle v.value v.middle v.first in
    let folded =
      ap (λ (d : Db). d.work_item_leases) (refold_lem e v.middle f.value f.middle f.first).result in
    let change = change_lem w p i _ _ f.value f.middle row end f.rest in
    subst (Holds host e) (event ∙ folded ∙ change)
      (grant_lease-live host e ttl c.middle g.value g.middle positive g.first)

-- A claim for a positive time that returns: at the row that it finds behind the seal, the item was in
-- an open status and nobody had a live lease of it, and now the claimer has one.
pub claim_work_item-Holds :
    (host : Host) (p : ℕ) (i : String) (ttl : ℕ) (db sealed : Db) (old row : Row) (end : Db)
    → 0 < ttl
    → seal_for_write host p i db ≡ ok (tt, sealed)
    → find_row p i sealed.work_items ≡ some old
    → claim_work_item host p i ttl db ≡ ok (row, end)
    → (is_open old.status ≡ true)
      × (is_live host.now (find_lease old.entity_id sealed.work_item_leases) ≡ false)
      × Holds host old.entity_id end.work_item_leases
unfolding claim_work_item reads require ◌>>=◌
claim_work_item-Holds host p i ttl db sealed old row end positive s r h =
    let (w, run) = sealed_call host p i _ db sealed old row end s r h in
    let lease = find_lease old.entity_id sealed.work_item_leases in
    elim (Bool-cases (is_open old.status)) [
      | inr shut ↦ cc (rw shut at run)
      | inl o ↦ elim (Bool-cases (is_live host.now lease)) [
        | inl taken ↦ cc (rw (o, taken) at run)
        | inr free ↦ (
          o,
          free,
          write_claim-Holds host w p i ttl old sealed row end positive (rw (o, free) at run),
        )
      ]
    ]
