-- ===== src/Store/Steps.antt =====
-- Rules for transactions: one judgement for each thing that a piece of a handler does to the cache
-- and the log, with rules for `search`.
use agent_notes.Prelude.{
  ℕ, String, ◌≡◌, refl, ◌∙◌, Bool, true, false, Option, none, some, arith, Result, ok, err, Error,
  if◌then◌else◌,
}
use mathlib.Core.Path.{subst₃}
use agent_notes.Ops.{Op}
use agent_notes.Store.Sound.{IsSound, IsSoundAt, IsPending, IsPendingAt, IsPending-of_sound}
use agent_notes.Store.{
  Db, Host, Tx, ◌>>=◌, pure, raise, reads, lift, require, found_or, store_blob, emit_event,
  EventType, write_change, ChangeType, continue,
}

-- What a bind that returned has run.
pub record Ran {A B : Type 0} (m : Tx A) (f : A → Tx B) (db : Db) (b : B) (end : Db) : Type 0 where
  pub value : A
  pub middle : Db
  pub first : m db ≡ ok (value, middle)
  pub rest : f value middle ≡ ok (b, end)

Ran-from :
    {A B : Type 0} (m : Tx A) (f : A → Tx B) (db : Db) (b : B) (end : Db) (r : Result (A × Db))
    → m db ≡ r
    → continue r f ≡ ok (b, end)
    → Ran m f db b end
Ran-from m f db b end (ok (a, middle)) e h = record {
  value = a;
  middle = middle;
  first = e;
  rest = h;
}
Ran-from m f db b end (err x) e h = cc

pub ran :
    {A B : Type 0} (m : Tx A) (f : A → Tx B) (db : Db) (b : B) (end : Db)
    → (m >>= f) db ≡ ok (b, end)
    → Ran m f db b end
unfolding ◌>>=◌
ran m f db b end h = Ran-from m f db b end (m db) refl h

pub record SameCore (db end : Db) : Type 0 where
  pub lamport : db.lamport ≡ end.lamport
  pub op_log : db.op_log ≡ end.op_log
  pub work_items : db.work_items ≡ end.work_items

pub SameCore-refl : (db : Db) → SameCore db db
SameCore-refl db = record { lamport = refl; op_log = refl; work_items = refl }

pub SameCore-trans : (a b c : Db) → SameCore a b → SameCore b c → SameCore a c
SameCore-trans a b c p q = record {
  lamport = p.lamport ∙ q.lamport;
  op_log = p.op_log ∙ q.op_log;
  work_items = p.work_items ∙ q.work_items;
}

-- The log and the cache stay as they are.
pub record IsQuiet {A : Type 0} (m : Tx A) : Type 0 where
  pub keeps : (db : Db) (a : A) (end : Db) → m db ≡ ok (a, end) → SameCore db end

-- A sound database stays sound.
pub record IsSafe {A : Type 0} (m : Tx A) : Type 0 where
  pub keeps : (db : Db) (a : A) (end : Db) → IsSound db → m db ≡ ok (a, end) → IsSound end

-- Ops are written for one entity only.
pub record IsTouching {A : Type 0} (e : ℕ) (m : Tx A) : Type 0 where
  pub keeps : (db : Db) (a : A) (end : Db) → IsPending e db → m db ≡ ok (a, end) → IsPending e end

-- What is pending for one entity is sound afterwards.
pub record IsMending {A : Type 0} (e : ℕ) (m : Tx A) : Type 0 where
  pub mends : (db : Db) (a : A) (end : Db) → IsPending e db → m db ≡ ok (a, end) → IsSound end

pub IsSound-along : (db end : Db) → SameCore db end → IsSound db → IsSound end
IsSound-along db end s h = subst₃ IsSoundAt s.lamport s.op_log s.work_items h

pub IsPending-along : (e : ℕ) (db end : Db) → SameCore db end → IsPending e db → IsPending e end
IsPending-along e db end s h = subst₃ (IsPendingAt e) s.lamport s.op_log s.work_items h

module _ {A : Type 0} where
  pub pure-IsQuiet : (x : A) → IsQuiet (pure x)
  unfolding pure
  pure-IsQuiet x = record { keeps = λ db a end h. ground arith }

  pub raise-IsQuiet : (e : Error) → IsQuiet (raise {A = A} e)
  unfolding raise
  raise-IsQuiet e = record { keeps = λ db a end h. cc }

  pub reads-IsQuiet : (f : Db → A) → IsQuiet (reads f)
  unfolding reads
  reads-IsQuiet f = record { keeps = λ db a end h. ground arith }

  pub lift-IsQuiet : (r : Result A) → IsQuiet (lift r)
  unfolding lift
  lift-IsQuiet (ok x) = record { keeps = λ db a end h. ground arith }
  lift-IsQuiet (err e) = record { keeps = λ db a end h. cc }

  pub found_or-IsQuiet : (e : Error) (o : Option A) → IsQuiet (found_or e o)
  unfolding found_or
  found_or-IsQuiet e none = record { keeps = λ db a end h. cc }
  found_or-IsQuiet e (some x) = record { keeps = λ db a end h. ground arith }

  pub if-IsQuiet : (b : Bool) (m n : Tx A) → IsQuiet m → IsQuiet n → IsQuiet (if b then m else n)
  if-IsQuiet true m n p q = p
  if-IsQuiet false m n p q = q

  pub if-IsSafe : (b : Bool) (m n : Tx A) → IsSafe m → IsSafe n → IsSafe (if b then m else n)
  if-IsSafe true m n p q = p
  if-IsSafe false m n p q = q

  pub if-IsTouching :
      (e : ℕ) (b : Bool) (m n : Tx A)
      → IsTouching e m
      → IsTouching e n
      → IsTouching e (if b then m else n)
  if-IsTouching e true m n p q = p
  if-IsTouching e false m n p q = q

  pub IsSafe-of_quiet : (m : Tx A) → IsQuiet m → IsSafe m
  IsSafe-of_quiet m q = record {
    keeps = λ db a end s h. IsSound-along db end (q.keeps db a end h) s;
  }

  pub IsTouching-of_quiet : (e : ℕ) (m : Tx A) → IsQuiet m → IsTouching e m
  IsTouching-of_quiet e m q = record {
    keeps = λ db a end s h. IsPending-along e db end (q.keeps db a end h) s;
  }

  pub IsSafe-of_mending : (e : ℕ) (m : Tx A) → IsMending e m → IsSafe m
  IsSafe-of_mending e m p = record {
    keeps = λ db a end s h. p.mends db a end (IsPending-of_sound e db s) h;
  }

pub require-IsQuiet : (b : Bool) (e : Error) → IsQuiet (require b e)
unfolding require
require-IsQuiet true e = record { keeps = λ db a end h. ground arith }
require-IsQuiet false e = record { keeps = λ db a end h. cc }

pub store_blob-IsQuiet : (host : Host) (text : String) → IsQuiet (store_blob host text)
unfolding store_blob
store_blob-IsQuiet host text = record { keeps = λ db a end h. ground arith }

pub emit_event-IsQuiet :
    (op : Op) (e : ℕ) (i : String) (t : EventType) → IsQuiet (emit_event op e i t)
unfolding emit_event
emit_event-IsQuiet op e i t = record { keeps = λ db a end h. ground arith }

pub write_change-IsQuiet :
    (w p : ℕ) (i : String) (c : ChangeType) (actor : Option String)
    → IsQuiet (write_change w p i c actor)
unfolding write_change
write_change-IsQuiet w p i c actor = record { keeps = λ db a end h. ground arith }

module _ {A B : Type 0} where
  pub bind-IsQuiet :
      (m : Tx A) (f : A → Tx B) → IsQuiet m → ((a : A) → IsQuiet (f a)) → IsQuiet (m >>= f)
  bind-IsQuiet m f p q = record {
    keeps = λ db b end h.
        let r = ran m f db b end h in
        SameCore-trans db r.middle end (p.keeps db r.value r.middle r.first)
          ((q r.value).keeps r.middle b end r.rest);
  }

  pub bind-IsSafe :
      (m : Tx A) (f : A → Tx B) → IsSafe m → ((a : A) → IsSafe (f a)) → IsSafe (m >>= f)
  bind-IsSafe m f p q = record {
    keeps = λ db b end s h.
        let r = ran m f db b end h in
        (q r.value).keeps r.middle b end (p.keeps db r.value r.middle s r.first) r.rest;
  }

  pub bind-IsTouching :
      (e : ℕ) (m : Tx A) (f : A → Tx B)
      → IsTouching e m
      → ((a : A) → IsTouching e (f a))
      → IsTouching e (m >>= f)
  bind-IsTouching e m f p q = record {
    keeps = λ db b end s h.
        let r = ran m f db b end h in
        (q r.value).keeps r.middle b end (p.keeps db r.value r.middle s r.first) r.rest;
  }

  pub bind-IsMending :
      (e : ℕ) (m : Tx A) (f : A → Tx B)
      → IsTouching e m
      → ((a : A) → IsMending e (f a))
      → IsMending e (m >>= f)
  bind-IsMending e m f p q = record {
    mends = λ db b end s h.
        let r = ran m f db b end h in
        (q r.value).mends r.middle b end (p.keeps db r.value r.middle s r.first) r.rest;
  }

  pub mended-bind :
      (e : ℕ) (m : Tx A) (f : A → Tx B)
      → IsMending e m
      → ((a : A) → IsSafe (f a))
      → IsMending e (m >>= f)
  mended-bind e m f p q = record {
    mends = λ db b end s h.
        let r = ran m f db b end h in
        (q r.value).keeps r.middle b end (p.mends db r.value r.middle s r.first) r.rest;
  }
