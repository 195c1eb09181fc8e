-- ===== src/SortedMap.antt =====
-- std::map from std::string: the entries in the order of their keys.
pub mod Order
use ag_fs.Base.{
  ◌≡◌, refl, Bool, true, false, List, [], ◌∷◌, Option, none, some, arith, if◌then◌else◌,
}
use ag_fs.Text.{Text, str_eq, str_eq_iff, str_lt}

abbrev pub SortedMap : Type 0 → Type 0
SortedMap V = List (Text × V)

module _ {V : Type 0} where
  -- m.find(key), as the value that it refers to; `none` is m.end().
  unfoldable pub find : Text → SortedMap V → Option V
  find key [] = none
  find key ((k, v) ∷ m) = if str_eq k key then some v else find key m

  -- m[key] = value
  unfoldable pub assign : Text → V → SortedMap V → SortedMap V
  assign key v [] = (key, v) ∷ []
  assign key v ((k, w) ∷ m) =
      let rest = assign key v m in
      if str_eq k key
      then (k, v) ∷ m
      else if str_lt key k
      then (key, v) ∷ (k, w) ∷ m
      else (k, w) ∷ rest

  abbrev or_insert : Text → V → SortedMap V → Option V → V × SortedMap V
  or_insert key default m none = (default, assign key default m)
  or_insert key default m (some v) = (v, m)

  -- m[key] where it is read: a missing key is inserted with the default value.
  unfoldable pub at_or_insert : Text → V → SortedMap V → V × SortedMap V
  at_or_insert key default m = or_insert key default m (find key m)

  -- m.insert({key, value}): a key that is there keeps its value.
  unfoldable pub insert : Text → V → SortedMap V → SortedMap V
  unfolding at_or_insert
  insert key v m = (at_or_insert key v m).1

  pub find-assign :
      (key j : Text) (v : V) (m : SortedMap V)
      → find j (assign key v m) ≡ (if str_eq key j then some v else find j m)
  unfolding find assign
  find-assign key j v [] = refl
  find-assign key j v ((k, w) ∷ m) =
      ground (arith, find-assign key j v m, str_eq_iff k key, str_eq_iff k j, str_eq_iff key j)

  -- Writing a key twice is writing it once.
  pub assign-assign :
      (key : Text) (v w : V) (m : SortedMap V) → assign key v (assign key w m) ≡ assign key v m
  unfolding assign
  assign-assign key v w [] = ground (arith, str_eq_iff key key)
  assign-assign key v w ((k, u) ∷ m) =
      ground
        (arith, assign-assign key v w m, str_eq_iff k key, str_eq_iff key key, str_eq_iff key k)
