-- ===== src/Base/Members.antt =====
-- Membership in a list, with the place kept.
use mathlib.Core.Path.{◌≡◌, refl}
use mathlib.Core.Logic.{◌⊎◌, inl, inr}
use mathlib.Core.List.{List, [], ◌∷◌, ◌++◌}

-- `x` stands in the list.
abbrev pub In : {A : Type 0} → A → List A → Type 0
In x [] = ⊥
In x (y ∷ ys) = (x ≡ y) ⊎ In x ys

-- No element of the list stands in it twice.
abbrev pub Unique : {A : Type 0} → List A → Type 0
Unique [] = Unit
Unique (x ∷ xs) = (In x xs → ⊥) × Unique xs

module _ {A : Type 0} where
  pub In-append_left : (x : A) (xs ys : List A) → In x xs → In x (xs ++ ys)
  In-append_left x [] ys m = elim m [ ]
  In-append_left x (y ∷ xs) ys (inl e) = inl e
  In-append_left x (y ∷ xs) ys (inr m) = inr (In-append_left x xs ys m)

  pub In-append_right : (x : A) (xs ys : List A) → In x ys → In x (xs ++ ys)
  In-append_right x [] ys m = m
  In-append_right x (y ∷ xs) ys m = inr (In-append_right x xs ys m)

  pub In-append : (x : A) (xs ys : List A) → In x (xs ++ ys) → In x xs ⊎ In x ys
  In-append x [] ys m = inr m
  In-append x (y ∷ xs) ys (inl e) = inl (inl e)
  In-append x (y ∷ xs) ys (inr m) = elim (In-append x xs ys m) [
    | inl left ↦ inl (inr left)
    | inr right ↦ inr right
  ]

  pub Unique-append :
      (xs ys : List A)
      → Unique xs
      → Unique ys
      → ((x : A) → In x xs → In x ys → ⊥)
      → Unique (xs ++ ys)
  Unique-append [] ys u v apart = v
  Unique-append (x ∷ xs) ys u v apart = (
    λ m. elim (In-append x xs ys m) [ inl left ↦ u.0 left | inr right ↦ apart x (inl refl) right ],
    Unique-append xs ys u.1 v (λ y m. apart y (inr m)),
  )
