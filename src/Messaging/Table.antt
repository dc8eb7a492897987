-- ===== src/Messaging/Table.antt =====
-- The SQL statements of the mailbox on lists of rows: UPDATE with RETURNING, and SELECT with LIMIT.
use agent_notes.Prelude.{
  ℕ, String, Bool, Option, none, some, List, [], ◌∷◌, ◌==◌, str_eq, any, zero, suc, if◌then◌else◌,
}
use agent_notes.Messaging.{Session, Message, Mail, Project}

-- LIMIT
unfoldable pub take : {A : Type 0} → ℕ → List A → List A
take zero xs = []
take (suc n) [] = []
take (suc n) (x ∷ xs) = x ∷ take n xs

-- UPDATE ... WHERE
unfoldable pub update_where : {A : Type 0} → (A → Bool) → (A → A) → List A → List A
update_where p f [] = []
update_where p f (x ∷ xs) = let rest = update_where p f xs in (if p x then f x else x) ∷ rest

-- RETURNING
unfoldable pub returning : {A : Type 0} → (A → Bool) → (A → A) → List A → List A
returning p f [] = []
returning p f (x ∷ xs) = let rest = returning p f xs in if p x then f x ∷ rest else rest

-- `x = ANY(ids)`
unfoldable pub is_any : ℕ → List ℕ → Bool
is_any i ids = any (λ j. i == j) ids

unfoldable pub is_text : String → Option String → Bool
is_text s none = Bool.false
is_text s (some t) = str_eq t s

unfoldable pub find_session : String → List Session → Option Session
find_session key [] = none
find_session key (s ∷ rows) = if str_eq s.session_key key then some s else find_session key rows

unfoldable pub find_message : ℕ → List Message → Option Message
find_message id [] = none
find_message id (m ∷ rows) = if m.id == id then some m else find_message id rows

unfoldable pub find_project : ℕ → List Project → Option Project
find_project id [] = none
find_project id (p ∷ rows) = if p.id == id then some p else find_project id rows

-- `_get_session`
unfoldable pub get_session : String → Mail → Option Session
unfolding find_session
get_session key mail = find_session key mail.sessions

-- `get_message`
unfoldable pub get_message : ℕ → Mail → Option Message
unfolding find_message
get_message id mail = find_message id mail.messages

-- The slug that the LEFT JOIN gives a session.
unfoldable pub project_of : Session → Mail → Option String
unfolding find_project
project_of s mail = elim s.project_id [
  | none ↦ none
  | some id ↦ elim (find_project id mail.projects) [ none ↦ none | some p ↦ some p.slug ]
]
