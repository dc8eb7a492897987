-- ===== src/Verifier/Genuine.antt =====
-- About `verify_op_id` of core/verifier.py and the ops that `commit_op` writes.
pub mod Handlers
use agent_notes.Prelude.{
  ℕ, String, ◌≡◌, refl, sym, ap, ◌∙◌, Bool, true, false, Option, none, some, List, [], ◌∷◌, ◌++◌,
  ◌+◌, ◌==◌, arith, All, All-append, ok, if◌then◌else◌,
}
use mathlib.Core.Path.{subst}
use agent_notes.Ops.{EntityType, OpType, create, Payload, Op}
use agent_notes.Store.{Db, Host, Tx, ◌>>=◌, commit_op, new_op, make_op_id, refold, fold_work_item}
use agent_notes.Store.Rows.{Row}
use agent_notes.Store.Sound.{==_refl}
use agent_notes.Store.Steps.{IsQuiet, ran}
use agent_notes.Store.Chain.{commit_op_lem, refold_lem}
use agent_notes.Verifier.{verify_op_id, Violation}

-- The op's ID is the hash of its payload, and the sequence in it is its own lamport.
abbrev pub IsGenuine : Host → Op → Type 0
IsGenuine host op = verify_op_id host op ≡ none

abbrev pub AllGenuine : Host → List Op → Type 0
AllGenuine host log = All (IsGenuine host) log

-- A log of genuine ops stays one.
pub record IsHonest (host : Host) {A : Type 0} (m : Tx A) : Type 0 where
  pub keeps :
      (db : Db) (a : A) (end : Db)
      → AllGenuine host db.op_log
      → m db ≡ ok (a, end)
      → AllGenuine host end.op_log

new_op-IsGenuine :
    (host : Host) (l e : ℕ) (t : EntityType) (o : OpType) (p : Payload) (ps : List ℕ)
    → p.op_seq ≡ none
    → IsGenuine host (new_op host l (some e) t o p ps)
unfolding verify_op_id new_op
new_op-IsGenuine host l e t create p ps h = rw (==_refl (make_op_id host t create p ps), h) refl
new_op-IsGenuine host l e t o p ps h =
    rw (==_refl (make_op_id host t o (record p { op_seq = some l }) ps), ==_refl l) refl

module _ {A : Type 0} where
  pub IsHonest-of_quiet : (host : Host) (m : Tx A) → IsQuiet m → IsHonest host m
  IsHonest-of_quiet host m q = record {
    keeps = λ db a end h r. subst (AllGenuine host) (q.keeps db a end r).op_log h;
  }

  pub if-IsHonest :
      (host : Host) (b : Bool) (m n : Tx A)
      → IsHonest host m
      → IsHonest host n
      → IsHonest host (if b then m else n)
  if-IsHonest host true m n p q = p
  if-IsHonest host false m n p q = q

pub bind-IsHonest :
    {A B : Type 0} (host : Host) (m : Tx A) (f : A → Tx B)
    → IsHonest host m
    → ((a : A) → IsHonest host (f a))
    → IsHonest host (m >>= f)
bind-IsHonest host m f p q = record {
  keeps = λ db b end h returned.
      let r = ran m f db b end returned in
      (q r.value).keeps r.middle b end (p.keeps db r.value r.middle h r.first) r.rest;
}

pub commit_op-IsHonest :
    (host : Host) (e : ℕ) (t : EntityType) (o : OpType) (p : Payload) (ps : List ℕ)
    → p.op_seq ≡ none
    → IsHonest host (commit_op host (some e) t o p ps)
commit_op-IsHonest host e t o p ps n = record {
  keeps = λ db op end h returned.
      let wrote = new_op host (db.lamport + 1) (some e) t o p ps in
      let result = (commit_op_lem host e t o p ps db op end returned).1 in
      subst (λ (d : Db). AllGenuine host d.op_log) result
        (All-append (IsGenuine host) db.op_log (wrote ∷ []) h
          (new_op-IsGenuine host (db.lamport + 1) e t o p ps n, tt));
}

pub refold-IsHonest : (host : Host) (e : ℕ) → IsHonest host (refold e)
refold-IsHonest host e = record {
  keeps = λ db row end h returned.
      subst (λ (d : Db). AllGenuine host d.op_log) (refold_lem e db row end returned).result h;
}

pub ruleset honest_rules =
    (bind-IsHonest, if-IsHonest, IsHonest-of_quiet, commit_op-IsHonest, refold-IsHonest, refl)
