-- ===== src/Messaging/Keys.antt =====
-- Session keys: `session_key`, `parse_session_key`, `is_session_key`.
use agent_notes.Prelude.{
  String, ◌≡◌, refl, Bool, true, false, not, Option, none, some, ◌==◌, ◌&&◌, ◌||◌, str_eq, eq_iff,
  Bool-cases, inl, inr, arith, if◌then◌else◌, arith, ap, ==_iff, sym,
}
use Prim.Native.Char.{Char, code}
use agent_notes.Prelude.Text.{strip}
use text.Mathlib.TextEquality.{Char-path}
use agent_notes.Messaging.{Outcome, done, raised, ◌>>◌, guard, empty_part, slash_in_name, not_a_key}

abbrev is_slash : Char → Bool
is_slash c = code c == 47

abbrev push_first : Char → Option (String × String) → Option (String × String)
push_first c none = none
push_first c (some (s, t)) = some (String.◌∷◌ c s, t)

-- `s.split("/", 1)`, with none for a text without a slash.
split_slash : String → Option (String × String)
split_slash String.[] = none
split_slash (String.◌∷◌ c s) =
    let rest = split_slash s in if is_slash c then some ("", s) else push_first c rest

-- `"/" in s`
has_slash : String → Bool
has_slash String.[] = false
has_slash (String.◌∷◌ c s) = let rest = has_slash s in is_slash c || rest

-- `not value or not value.strip()`
unfoldable pub is_blank : String → Bool
unfolding strip
is_blank s = str_eq (strip s) ""

abbrev concat : String → String → String
concat String.[] t = t
concat (String.◌∷◌ c s) t = String.◌∷◌ c (concat s t)

abbrev pub join : String → String → String → String
join vm harness session_id = concat vm (String.◌∷◌ "/" (concat harness (String.◌∷◌ "/" session_id)))

unfoldable pub session_key : String → String → String → Outcome String
unfolding is_blank has_slash
session_key vm harness session_id = do
  guard (not (is_blank vm)) empty_part
  guard (not (is_blank harness)) empty_part
  guard (not (is_blank session_id)) empty_part
  guard (not (has_slash vm || has_slash harness)) slash_in_name
  done (join vm harness session_id)

abbrev is_nonempty : String → Bool
is_nonempty s = not (str_eq s "")

abbrev three_parts : String → Option (String × String) → Outcome (String × (String × String))
three_parts vm none = raised not_a_key
three_parts vm (some (harness, session_id)) =
    if is_nonempty vm && is_nonempty harness && is_nonempty session_id
    then done (vm, (harness, session_id))
    else raised not_a_key

abbrev two_parts : Option (String × String) → Outcome (String × (String × String))
two_parts none = raised not_a_key
two_parts (some (vm, rest)) = three_parts vm (split_slash rest)

unfoldable pub parse_session_key : String → Outcome (String × (String × String))
unfolding split_slash
parse_session_key key = two_parts (split_slash key)

unfoldable pub is_session_key : String → Bool
unfolding parse_session_key
is_session_key value = elim (parse_session_key value) [ done _ ↦ true | raised _ ↦ false ]

is_slash-lem : (c : Char) → is_slash c ≡ true → c ≡ "/"
is_slash-lem c h = Char-path c "/" ((==_iff (code c) 47).0 h)

split_slash-concat :
    (s t : String) → has_slash s ≡ false → split_slash (concat s (String.◌∷◌ "/" t)) ≡ some (s, t)
unfolding split_slash has_slash
split_slash-concat String.[] t h = refl
split_slash-concat (String.◌∷◌ c s) t h = ground (arith, split_slash-concat s t)

pushed :
    (c : Char) (o : Option (String × String)) (s t : String)
    → push_first c o ≡ some (s, t)
    → (r : String) × (o ≡ some (r, t)) × (s ≡ String.◌∷◌ c r)
pushed c none s t h = ground arith
pushed c (some (r, u)) s t h = (r, ground arith, ground arith)

split_slash-join :
    (key s t : String) → split_slash key ≡ some (s, t) → concat s (String.◌∷◌ "/" t) ≡ key
unfolding split_slash
split_slash-join String.[] s t h = ground arith
split_slash-join (String.◌∷◌ c key) s t h = elim (Bool-cases (is_slash c)) [
  | inl e ↦
      let left : "" ≡ s = ground arith in
      let right : key ≡ t = ground arith in
      rw⁻¹ left (rw (is_slash-lem c e) (ap (String.◌∷◌ "/") (sym right)))
  | inr e ↦
      let rest = pushed c (split_slash key) s t (ground arith) in
      rw rest.2 (ap (String.◌∷◌ c) (split_slash-join key rest.0 t rest.1))
]

is_blank-empty : is_blank "" ≡ true
unfolding is_blank strip
is_blank-empty = refl

nonblank : (s : String) → is_blank s ≡ false → is_nonempty s ≡ true
nonblank s h = ground (arith, eq_iff s "", is_blank-empty)

session_key_parts :
    (vm harness session_id key : String)
    → session_key vm harness session_id ≡ done key
    → (is_nonempty vm ≡ true)
      × (is_nonempty harness ≡ true)
      × (is_nonempty session_id ≡ true)
      × (has_slash vm ≡ false)
      × (has_slash harness ≡ false)
      × (join vm harness session_id ≡ key)
unfolding session_key
session_key_parts vm harness session_id key h =
    ground (arith, nonblank vm, nonblank harness, nonblank session_id)

-- A key that `session_key` made is parsed back into the VM, the harness and the ID that it was made
-- of; the ID may hold further slashes.
pub parse_session_key-session_key :
    (vm harness session_id key : String)
    → session_key vm harness session_id ≡ done key
    → parse_session_key key ≡ done (vm, (harness, session_id))
unfolding parse_session_key
parse_session_key-session_key vm harness session_id key h =
    let (v, k, i, sv, sk, e) = session_key_parts vm harness session_id key h in
    rw⁻¹ e (
      rw (split_slash-concat vm _ sv)
        (rw (split_slash-concat harness session_id sk) (ground arith)))

three_parts_lem :
    (vm v k i : String) (o : Option (String × String))
    → three_parts v o ≡ done (vm, (k, i))
    → (v ≡ vm) × (o ≡ some (k, i))
three_parts_lem vm v k i none h = ground arith
three_parts_lem vm v k i (some (j, l)) h = ground arith

two_parts_lem :
    (o : Option (String × String)) (vm k i : String)
    → two_parts o ≡ done (vm, (k, i))
    → (rest : String) × (o ≡ some (vm, rest)) × (split_slash rest ≡ some (k, i))
two_parts_lem none vm k i h = ground arith
two_parts_lem (some (v, rest)) vm k i h =
    let parts = three_parts_lem vm v k i (split_slash rest) h in (rest, rw parts.0 refl, parts.1)

-- What a key is parsed into gives the key again, joined by slashes.
pub parse_session_key-join :
    (key vm harness session_id : String)
    → parse_session_key key ≡ done (vm, (harness, session_id))
    → join vm harness session_id ≡ key
unfolding parse_session_key
parse_session_key-join key vm harness session_id h =
    let (rest, first, second) = two_parts_lem (split_slash key) vm harness session_id h in
    rw (split_slash-join rest harness session_id second) (split_slash-join key vm rest first)
