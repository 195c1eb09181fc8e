-- ===== src/SortedMap/Order.antt =====
-- The keys of a map stay in strictly increasing order.
use mathlib.Core.Path.{subst}
use ag_fs.Base.{
  ◌≡◌, sym, ap, ◌∙◌, map, List, In, Unique, true, false, [], ◌∷◌, some, arith, Bool-cases, inl, inr,
}
use ag_fs.Text.{Text, str_eq, str_eq_iff, str_lt, str_lt_trans, str_lt_total, str_lt_irrefl}
use ag_fs.SortedMap.{SortedMap, find, assign}

module _ {V : Type 0} where
  -- Every key is greater than `key`.
  abbrev pub Above : Text → SortedMap V → Type 0
  Above key [] = Unit
  Above key ((k, v) ∷ m) = (str_lt key k ≡ true) × Above key m

  abbrev pub IsSorted : SortedMap V → Type 0
  IsSorted [] = Unit
  IsSorted ((k, v) ∷ m) = Above k m × IsSorted m

  Above-trans : (j k : Text) (m : SortedMap V) → str_lt j k ≡ true → Above k m → Above j m
  Above-trans j k [] h a = tt
  Above-trans j k ((i, v) ∷ m) h a = (str_lt_trans j k i h a.0, Above-trans j k m h a.1)

  assign-Above :
      (j key : Text) (v : V) (m : SortedMap V)
      → str_lt j key ≡ true
      → Above j m
      → Above j (assign key v m)
  unfolding assign
  assign-Above j key v [] h a = (h, tt)
  assign-Above j key v ((k, w) ∷ m) h a = ground (arith, assign-Above j key v m h a.1)

  pub assign-IsSorted :
      (key : Text) (v : V) (m : SortedMap V) → IsSorted m → IsSorted (assign key v m)
  unfolding assign
  assign-IsSorted key v [] s = (tt, tt)
  assign-IsSorted key v ((k, w) ∷ m) s = ground (
    arith,
    assign-IsSorted key v m s.1,
    assign-Above k key v m,
    Above-trans key k m,
    str_lt_total k key,
    str_lt_total key k,
    str_eq_iff k key,
    str_eq_iff key k,
  )

module _ {V : Type 0} where
  abbrev pub keys : SortedMap V → List Text
  keys = map (λ (entry : Text × V). entry.0)

  Above-In : (key j : Text) (m : SortedMap V) → Above key m → In j (keys m) → str_lt key j ≡ true
  Above-In key j [] a h = elim h [ ]
  Above-In key j ((k, v) ∷ m) a (inl e) = ap (str_lt key) e ∙ a.0
  Above-In key j ((k, v) ∷ m) a (inr h) = Above-In key j m a.1 h

  -- No key stands twice.
  pub keys-Unique : (m : SortedMap V) → IsSorted m → Unique (keys m)
  keys-Unique [] s = tt
  keys-Unique ((k, v) ∷ m) s = (
    λ h. let e : true ≡ false = sym (Above-In k k m s.0 h) ∙ str_lt_irrefl k in cc,
    keys-Unique m s.1,
  )

-- Every value of a map has the property.
module _ {V : Type 0} (P : V → Type 0) where
  abbrev pub Values : SortedMap V → Type 0
  Values [] = Unit
  Values ((k, v) ∷ m) = P v × Values m

  pub Values-assign :
      (key : Text) (v : V) (m : SortedMap V) → P v → Values m → Values (assign key v m)
  unfolding assign
  Values-assign key v [] p h = (p, tt)
  Values-assign key v ((k, w) ∷ m) p h = ground (arith, Values-assign key v m p h.1)

  pub Values-find : (key : Text) (v : V) (m : SortedMap V) → find key m ≡ some v → Values m → P v
  unfolding find
  Values-find key v [] e h = cc
  Values-find key v ((k, w) ∷ m) e h = elim (Bool-cases (str_eq k key)) [
    | inl same ↦ let e' : some w ≡ some v = rw same at e in let q : w ≡ v = cc in subst P q h.0
    | inr other ↦ Values-find key v m (rw other at e) h.1
  ]
