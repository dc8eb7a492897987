-- ===== src/Store/Rows.antt =====
-- The `work_items` cache table (schema/700_work_log_kernel.sql, 820_canonical_lifecycle.sql).
-- An embedding is taken to come back as it went in, though pgvector stores floats as text.
use agent_notes.Prelude.{
  ℕ, String, Bool, true, false, Option, none, some, List, [], ◌∷◌, ◌==◌, ◌&&◌, str_eq,
  if◌then◌else◌,
}
use agent_notes.Lifecycle.{Status, is_valid}
use agent_notes.Ops.Objects.{Json, Dict}
use agent_notes.Kernel.{State}

pub record Row : Type 0 where
  pub entity_id : ℕ
  pub project_id : ℕ
  pub identifier : String
  pub title : String
  pub body_hash : ℕ
  pub kind : String
  pub status : Status
  pub severity : String
  pub external_refs : Dict
  pub diagnostic_keys : Dict
  pub embedding : Option Json
  pub frontmatter_version : ℕ

-- The state that a row holds.
abbrev pub state_of : Row → State
state_of r = record {
  entity_id = r.entity_id;
  project_id = some r.project_id;
  identifier = some r.identifier;
  title = some r.title;
  body_hash = some r.body_hash;
  kind = some r.kind;
  status = some r.status;
  severity = some r.severity;
  external_refs = r.external_refs;
  diagnostic_keys = r.diagnostic_keys;
  embedding = r.embedding;
  frontmatter_version = some r.frontmatter_version;
}

infixl 5 ◌>>=◌
abbrev ◌>>=◌ : {A B : Type 0} → Option A → (A → Option B) → Option B
none >>= f = none
some a >>= f = f a

abbrev checked : Bool → Row → Option Row
checked true r = some r
checked false r = none

-- The row with the state's columns, if no NOT NULL column is null and the status passes the CHECK.
unfoldable pub row_of : State → Option Row
unfolding is_valid
row_of s = do
  project_id ← s.project_id
  identifier ← s.identifier
  title ← s.title
  body_hash ← s.body_hash
  kind ← s.kind
  status ← s.status
  severity ← s.severity
  frontmatter_version ← s.frontmatter_version
  checked (is_valid status) (record {
    entity_id = s.entity_id;
    project_id = project_id;
    identifier = identifier;
    title = title;
    body_hash = body_hash;
    kind = kind;
    status = status;
    severity = severity;
    external_refs = s.external_refs;
    diagnostic_keys = s.diagnostic_keys;
    embedding = s.embedding;
    frontmatter_version = frontmatter_version;
  })

unfoldable pub find_entity : ℕ → List Row → Option Row
find_entity e [] = none
find_entity e (r ∷ rows) = if r.entity_id == e then some r else find_entity e rows

abbrev pub named : ℕ → String → Row → Bool
named project_id identifier r = r.project_id == project_id && str_eq r.identifier identifier

-- SELECT * FROM work_items WHERE project_id AND identifier
unfoldable pub find_row : ℕ → String → List Row → Option Row
find_row p i [] = none
find_row p i (r ∷ rows) = if named p i r then some r else find_row p i rows

unfoldable pub upsert : Row → List Row → List Row
upsert row [] = row ∷ []
upsert row (r ∷ rows) = if r.entity_id == row.entity_id then row ∷ rows else r ∷ upsert row rows

-- DELETE FROM work_items WHERE project_id AND identifier
unfoldable pub remove_row : ℕ → String → List Row → List Row
remove_row p i [] = []
remove_row p i (r ∷ rows) = if named p i r then remove_row p i rows else r ∷ remove_row p i rows
