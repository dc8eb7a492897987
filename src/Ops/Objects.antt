-- ===== src/Ops/Objects.antt =====
-- JSON values and objects. An object is an association list; a natural
-- number is `num`, any other number stands as its JSON text.
use agent_notes.Prelude.{
  String, ◌≡◌, refl, Bool, Option, none, some, List, [], ◌∷◌, arith, str_eq, eq_iff, if◌then◌else◌,
  true, ℕ, ◌&&◌, false, length, not, suc, ◌==◌,
}

mutual
  pub data Json : Type 0 where
    null : Json
    bool : Bool → Json
    num : ℕ → Json
    decimal : String → Json
    str : String → Json
    arr : Items → Json
    obj : Members → Json

  pub data Items : Type 0 where
    nil : Items
    cons : Json → Items → Items

  pub data Members : Type 0 where
    end : Members
    member : String → Json → Members → Members

abbrev pub Dict : Type 0
Dict = List (String × Json)

unfoldable pub lookup : String → Dict → Option Json
lookup k [] = none
lookup k ((j, v) ∷ d) = if str_eq j k then some v else lookup k d

unfoldable pub insert : String → Json → Dict → Dict
insert k v [] = (k, v) ∷ []
insert k v ((j, w) ∷ d) = if str_eq j k then (k, v) ∷ d else (j, w) ∷ insert k v d

-- `d.update(e)`
unfoldable pub update : Dict → Dict → Dict
unfolding insert
update d [] = d
update d ((k, v) ∷ e) = update (insert k v d) e

pub lookup-insert :
    (k j : String) (v : Json) (d : Dict)
    → lookup j (insert k v d) ≡ (if str_eq k j then some v else lookup j d)
unfolding lookup insert
lookup-insert k j v [] = refl
lookup-insert k j v ((i, w) ∷ d) =
    ground (arith, eq_iff k j, eq_iff i k, eq_iff i j, lookup-insert k j v d)

abbrev pub find : String → Members → Option Json
find k end = none
find k (member j v m) = if str_eq j k then some v else find k m

abbrev count_items : Items → ℕ
count_items nil = 0
count_items (cons v vs) = suc (count_items vs)

abbrev count_members : Members → ℕ
count_members end = 0
count_members (member k v m) = suc (count_members m)

-- Python's `==`: objects are compared as sets of members. Texts of numbers are compared as texts.
unfoldable mutual
  pub json_eq : Json → Json → Bool
  json_eq null null = true
  json_eq (bool true) (bool b) = b
  json_eq (bool false) (bool b) = not b
  json_eq (num m) (num n) = m == n
  json_eq (decimal s) (decimal t) = str_eq s t
  json_eq (str s) (str t) = str_eq s t
  json_eq (arr xs) (arr ys) = items_eq xs ys
  json_eq (obj m) (obj n) = members_within m n && (count_members m == count_members n)
  json_eq _ _ = false

  items_eq : Items → Items → Bool
  items_eq nil nil = true
  items_eq (cons x xs) (cons y ys) = json_eq x y && items_eq xs ys
  items_eq _ _ = false

  members_within : Members → Members → Bool
  members_within end n = true
  members_within (member k v m) n =
      elim (find k n) [ none ↦ false | some w ↦ json_eq v w ] && members_within m n

unfoldable pub within : Dict → Dict → Bool
unfolding json_eq lookup
within [] e = true
within ((k, v) ∷ d) e = elim (lookup k e) [ none ↦ false | some w ↦ json_eq v w ] && within d e

-- `==` of two dicts
unfoldable pub dict_eq : Dict → Dict → Bool
unfolding within
dict_eq d e = within d e && (length d == length e)
