-- ===== src/WorkItem/Approval/Running.antt =====
-- About the statements that a handler of core/work_item/_native.py runs ahead of its checks.
use agent_notes.Prelude.{String, ◌≡◌, some, ok, ℕ, Option-cases, inl, inr}
use agent_notes.Store.{Db, Host, reads, pure, ◌>>=◌, Tx, found_or}
use agent_notes.Store.Rows.{Row, find_row}
use agent_notes.Store.Steps.{ran, SameCore}
use agent_notes.WorkItem.{
  resolve_workspace_for_project, load_work_item_row, seal_for_write, find_project,
}
use agent_notes.Store.{◌>>◌}
use agent_notes.Store.Steps.{IsQuiet, SameCore, SameCore-trans}

-- What a handler does behind the project, the seal and the row.
pub sealed_call :
    {B : Type 0} (host : Host) (p : ℕ) (i : String) (f : ℕ → Row → Tx B) (db sealed : Db)
    (old : Row) (b : B) (end : Db)
    → seal_for_write host p i db ≡ ok (tt, sealed)
    → find_row p i sealed.work_items ≡ some old
    → (do
      w ← resolve_workspace_for_project p
      seal_for_write host p i
      old ← load_work_item_row p i
      f w old)
        db
      ≡ ok (b, end)
    → (w : ℕ) × (f w old sealed ≡ ok (b, end))
unfolding resolve_workspace_for_project load_work_item_row reads found_or pure ◌>>=◌
sealed_call host p i f db sealed old b end s r h =
    elim (Option-cases (find_project p db.projects)) [
      | inl e ↦ cc (rw e at h)
      | inr (project, e) ↦ (project.workspace_id, rw (e, s, r) at h)
    ]

-- The rest of a chain of statements behind one that leaves the log as it is.
pub behind :
    {A B : Type 0} (m : Tx A) (f : A → Tx B) (start db : Db) (b : B) (end : Db)
    → IsQuiet m
    → SameCore start db
    → (m >>= f) db ≡ ok (b, end)
    → (a : A) × (middle : Db) × SameCore start middle × (f a middle ≡ ok (b, end))
behind m f start db b end quiet same h =
    let r = ran m f db b end h in
    let next = SameCore-trans start db r.middle same (quiet.keeps db r.value r.middle r.first) in
    (r.value, r.middle, next, r.rest)
