-- ===== src/Lifecycle.antt =====
-- core/lifecycle.py: the status vocabulary, its lattice rank and its transitions.
-- A status is a string in the source. The nine strings of ALL_VALID_STATES are constructors here
-- ("open" is `opened`, since `open` is reserved), and `other s` is any other string s.
pub mod Transitions
use agent_notes.Prelude.{
  ℕ, String, ◌≡◌, ◌↔◌, Bool, true, false, Option, none, some, List, [], ◌∷◌, ◌||◌, ◌==◌, str_eq,
  eq_iff, arith, if◌then◌else◌, Result, ok, err, unsupported_transition,
}
use agent_notes.Prelude.Int.{ℤ, pos, negsuc}

pub data Status : Type 0 where
  opened in_progress blocked deferred in_review in_human_review done : Status
  claimed closed : Status
  other : String → Status

-- CANONICAL_STATES
unfoldable pub is_canonical : Status → Bool
is_canonical claimed = false
is_canonical closed = false
is_canonical (other s) = false
is_canonical _ = true

-- LEGACY_STATES
unfoldable pub is_legacy : Status → Bool
is_legacy claimed = true
is_legacy closed = true
is_legacy _ = false

-- ALL_VALID_STATES and `is_valid`
unfoldable pub is_valid : Status → Bool
unfolding is_canonical is_legacy
is_valid s = is_canonical s || is_legacy s

-- IS_TERMINAL and `is_terminal`
unfoldable pub is_terminal : Status → Bool
is_terminal done = true
is_terminal closed = true
is_terminal _ = false

-- IS_OPEN and `is_open`
unfoldable pub is_open : Status → Bool
is_open opened = true
is_open in_progress = true
is_open claimed = true
is_open _ = false

-- STATUS_RANK and `rank`
unfoldable pub rank : Status → ℤ
rank opened = pos 8
rank in_progress = pos 7
rank blocked = pos 7
rank in_review = pos 6
rank in_human_review = pos 5
rank claimed = pos 4
rank deferred = pos 2
rank done = pos 0
rank closed = pos 0
rank (other s) = negsuc 0

-- The place of a status in the list of constructors, to compare two statuses by.
abbrev position : Status → ℕ
position opened = 0
position in_progress = 1
position blocked = 2
position deferred = 3
position in_review = 4
position in_human_review = 5
position done = 6
position claimed = 7
position closed = 8
position (other s) = 9

-- `==` of two status strings
unfoldable pub status_eq : Status → Status → Bool
status_eq (other s) (other t) = str_eq s t
status_eq a b = position a == position b

pub data Transition : Type 0 where
  start block unblock defer resume submit_for_review adversarial_pass : Transition
  request_changes accept reject reopen close_from_open : Transition

-- VALID_TRANSITIONS
unfoldable pub valid_transition : Status → Status → Option Transition
valid_transition opened in_progress = some start
valid_transition deferred in_progress = some start
valid_transition in_progress blocked = some block
valid_transition blocked in_progress = some unblock
valid_transition opened deferred = some defer
valid_transition in_progress deferred = some defer
valid_transition deferred opened = some resume
valid_transition in_progress in_review = some submit_for_review
valid_transition in_review in_human_review = some adversarial_pass
valid_transition in_review in_progress = some request_changes
valid_transition in_human_review done = some accept
valid_transition in_human_review in_progress = some reject
valid_transition done opened = some reopen
valid_transition opened done = some close_from_open
valid_transition _ _ = none

-- _LEGACY_SOURCE_ALIAS
unfoldable pub legacy_source_alias : Status → Status
legacy_source_alias closed = done
legacy_source_alias claimed = opened
legacy_source_alias s = s

-- `"done" if new_status == "closed" else new_status`
unfoldable pub target_alias : Status → Status
target_alias closed = done
target_alias s = s

-- LEGACY_TO_CANONICAL, but for the key "closed", which is the status `closed` here.
abbrev pub legacy_to_canonical : List (String × Status)
legacy_to_canonical =
    ("new", opened)
    ∷ ("active", in_progress)
    ∷ ("under_review", in_review)
    ∷ ("proposed", opened)
    ∷ ("decision-pending", opened)
    ∷ ("resolved", done)
    ∷ ("implemented", done)
    ∷ ("accepted", done)
    ∷ ("wont_fix", deferred)
    ∷ ("wontfix", deferred)
    ∷ ("duplicate", deferred)
    ∷ ("obsolete", deferred)
    ∷ ("rejected", deferred)
    ∷ []

-- `table.get(key, default)`
unfoldable pub get_status : List (String × Status) → String → Status → Status
get_status [] s d = d
get_status ((k, c) ∷ rest) s d = if str_eq k s then c else get_status rest s d

unfoldable pub map_legacy_to_canonical : Status → Status
unfolding get_status
map_legacy_to_canonical closed = done
map_legacy_to_canonical (other s) = get_status legacy_to_canonical s (other s)
map_legacy_to_canonical s = s

found_or_raise : Option Transition → Result (Option Transition)
found_or_raise (some t) = ok (some t)
found_or_raise none = err unsupported_transition

unfoldable pub transition_for : Status → Status → Result (Option Transition)
unfolding status_eq legacy_source_alias target_alias valid_transition found_or_raise
transition_for old_status new_status =
    if status_eq old_status new_status
    then ok none
    else found_or_raise
        (valid_transition (legacy_source_alias old_status) (target_alias new_status))
