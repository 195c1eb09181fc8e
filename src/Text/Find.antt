-- ===== src/Text/Find.antt =====
-- Where `find` finds a pattern.
use mathlib.Core.Option
use ag_fs.Base.{
  ℕ, suc, ◌+◌, ◌≤◌, ◌≡◌, refl, true, false, ◌==◌, [], ◌∷◌, ◌++◌, length, Option, none, some, arith,
  Bool-cases, inl, inr,
}
use ag_fs.Text.{Text, is_prefix, find}

-- A pattern of two different bytes cannot begin in a text without it and end behind.
pub find-append_two :
    (p q : ℕ) (s t : Text)
    → (p == q) ≡ false
    → find (p ∷ q ∷ []) s ≡ none
    → find (p ∷ q ∷ []) (s ++ p ∷ q ∷ t) ≡ some (length s)
unfolding find is_prefix
find-append_two p q [] t ne h = ground arith
find-append_two p q (c ∷ []) t ne h = ground (arith, find-append_two p q [] t ne)
find-append_two p q (c ∷ d ∷ s) t ne h = ground (arith, find-append_two p q (d ∷ s) t ne)

Option-map-suc :
    (o : Option ℕ) (n : ℕ) → Option.map suc o ≡ some n → (m : ℕ) × (o ≡ some m) × (n ≡ suc m)
Option-map-suc none n h = cc
Option-map-suc (some m) n h = (m, refl, ground arith)

length-le_of_prefix : (p s : Text) → is_prefix p s ≡ true → length p ≤ length s
unfolding is_prefix
length-le_of_prefix [] s h = omega arith
length-le_of_prefix (p ∷ ps) [] h = cc
length-le_of_prefix (p ∷ ps) (c ∷ s) h = ground (arith, length-le_of_prefix ps s)

-- A pattern that is found lies inside the text.
pub find_in_range : (p s : Text) (i : ℕ) → find p s ≡ some i → i + length p ≤ length s
unfolding find
find_in_range p [] i h = ground (arith, length-le_of_prefix p [])
find_in_range p (c ∷ s) i h = elim (Bool-cases (is_prefix p (c ∷ s))) [
  | inl e ↦ ground (arith, length-le_of_prefix p (c ∷ s))
  | inr e ↦
      let (m, found, up) = Option-map-suc (find p s) i (rw e at h) in
      omega (arith, find_in_range p s m found, up)
]
