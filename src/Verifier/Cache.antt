-- ===== src/Verifier/Cache.antt =====
-- `verify_cache` of core/verifier.py: the live cache against the fold of the log.
use agent_notes.Prelude.{
  ℕ, String, Bool, true, false, Option, none, some, List, [], ◌∷◌, ◌++◌, ◌+◌, ◌==◌, ltb, str_eq,
  map, filter, if◌then◌else◌, is_empty,
}
use agent_notes.Lifecycle.{status_eq}
use agent_notes.Ops.Objects.{dict_eq}
use agent_notes.Ops.{EntityType, work_item, Op}
use agent_notes.Kernel.{State}
use agent_notes.Store.{Db, fold_entity}
use agent_notes.Store.Rows.{Row, find_entity}
use agent_notes.WorkItem.{unless, column_eq, nat_eq}
use agent_notes.Verifier.{
  VerificationResult, no_result, Problem, stale_row, no_row, field_mismatch, violation,
}

-- The fields of _CACHE_COMPARE_FIELDS that differ.
unfoldable pub cache_diffs : State → Row → List String
unfolding status_eq dict_eq
cache_diffs s row =
    unless (column_eq nat_eq s.project_id row.project_id) "project_id"
    ++ unless (column_eq str_eq s.identifier row.identifier) "identifier"
    ++ unless (column_eq str_eq s.title row.title) "title"
    ++ unless (column_eq nat_eq s.body_hash row.body_hash) "body_hash"
    ++ unless (column_eq str_eq s.kind row.kind) "kind"
    ++ unless (column_eq status_eq s.status row.status) "status"
    ++ unless (column_eq str_eq s.severity row.severity) "severity"
    ++ unless (dict_eq s.external_refs row.external_refs) "external_refs"
    ++ unless (dict_eq s.diagnostic_keys row.diagnostic_keys) "diagnostic_keys"
    ++ unless (column_eq nat_eq s.frontmatter_version row.frontmatter_version) "frontmatter_version"

-- What the comparison of one entity finds.
unfoldable pub compare_entity : Option State → Option Row → List Problem
unfolding cache_diffs
compare_entity none none = []
compare_entity none (some row) = stale_row ∷ []
compare_entity (some s) none = no_row ∷ []
compare_entity (some s) (some row) = map field_mismatch (cache_diffs s row)

-- Any finding fails the entity, which is counted once.
unfoldable pub count_entity : VerificationResult → ℕ → List Problem → VerificationResult
count_entity result e ps = record {
  checked = result.checked + 1;
  passed = if is_empty ps then result.passed + 1 else result.passed;
  failed = if is_empty ps then result.failed else result.failed + 1;
  violations = result.violations ++ map (violation e) ps;
}

unfoldable pub cache_loop : Db → VerificationResult → List ℕ → VerificationResult
unfolding compare_entity count_entity find_entity
cache_loop db result [] = result
cache_loop db result (e ∷ es) =
    cache_loop db
      (count_entity result e
        (compare_entity (fold_entity db.op_log e) (find_entity e db.work_items)))
      es

-- UNION and ORDER BY: sorted, each ID once.
unfoldable pub insert_distinct : ℕ → List ℕ → List ℕ
insert_distinct e [] = e ∷ []
insert_distinct e (x ∷ xs) =
    if e == x then x ∷ xs else if ltb e x then e ∷ x ∷ xs else x ∷ insert_distinct e xs

unfoldable pub distinct_ids : List ℕ → List ℕ
unfolding insert_distinct
distinct_ids [] = []
distinct_ids (e ∷ es) = insert_distinct e (distinct_ids es)

abbrev pub is_work_item : EntityType → Bool
is_work_item work_item = true
is_work_item _ = false

-- The entities that the log or the cache knows.
unfoldable pub known_entities : Db → List ℕ
unfolding distinct_ids
known_entities db = distinct_ids (
    map (λ (o : Op). o.entity_id) (filter (λ (o : Op). is_work_item o.entity_type) db.op_log)
    ++ map (λ (r : Row). r.entity_id) db.work_items)

abbrev chosen : Option ℕ → List ℕ → List ℕ
chosen none es = es
chosen (some e) es = filter (λ x. x == e) es

-- `_verify_cache`
unfoldable pub verify_cache : Option ℕ → Db → VerificationResult
unfolding known_entities cache_loop
verify_cache entity_id db = cache_loop db no_result (chosen entity_id (known_entities db))
