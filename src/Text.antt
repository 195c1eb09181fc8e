-- ===== src/Text.antt =====
-- std::string as the list of its bytes: comparison, find and substr.
pub mod Find
use Prim.Native.Char.{code}
use Prim.Native.String.{String}
use mathlib.Core.Option
use ag_fs.Base.{
  ℕ, zero, suc, ◌+◌, ◌-◌, ◌%◌, ◌^◌, ◌≡◌, ◌↔◌, refl, Bool, true, false, ◌&&◌, ◌==◌, ltb, List, [],
  ◌∷◌, Option, none, some, take, drop, arith, if◌then◌else◌,
}

abbrev pub Text : Type 0
Text = List ℕ

-- The bytes of an ASCII literal.
abbrev pub codes : String → Text
codes String.[] = []
codes (String.◌∷◌ c s) = code c ∷ codes s

unfoldable pub str_eq : Text → Text → Bool
str_eq [] [] = true
str_eq [] (b ∷ t) = false
str_eq (a ∷ s) [] = false
str_eq (a ∷ s) (b ∷ t) = a == b && str_eq s t

pub str_eq_iff : (s t : Text) → (str_eq s t ≡ true) ↔ (s ≡ t)
unfolding str_eq
str_eq_iff [] [] = ground arith
str_eq_iff [] (b ∷ t) = ground arith
str_eq_iff (a ∷ s) [] = ground arith
str_eq_iff (a ∷ s) (b ∷ t) = ground (arith, str_eq_iff s t)

pub str_eq_refl : (s : Text) → str_eq s s ≡ true
str_eq_refl s = (str_eq_iff s s).1 refl

-- operator<, the order in which std::map keeps its keys.
unfoldable pub str_lt : Text → Text → Bool
str_lt [] [] = false
str_lt [] (b ∷ t) = true
str_lt (a ∷ s) [] = false
str_lt (a ∷ s) (b ∷ t) = let rest = str_lt s t in if ltb a b then true else a == b && rest

pub str_lt_trans : (s t u : Text) → str_lt s t ≡ true → str_lt t u ≡ true → str_lt s u ≡ true
unfolding str_lt
str_lt_trans [] [] u h k = ground arith
str_lt_trans [] (b ∷ t) [] h k = ground arith
str_lt_trans [] (b ∷ t) (c ∷ u) h k = refl
str_lt_trans (a ∷ s) [] u h k = ground arith
str_lt_trans (a ∷ s) (b ∷ t) [] h k = ground arith
str_lt_trans (a ∷ s) (b ∷ t) (c ∷ u) h k = ground (arith, str_lt_trans s t u)

pub str_lt_irrefl : (s : Text) → str_lt s s ≡ false
unfolding str_lt
str_lt_irrefl [] = refl
str_lt_irrefl (a ∷ s) = ground (arith, str_lt_irrefl s)

-- One of two different strings is the lesser.
pub str_lt_total : (s t : Text) → str_eq s t ≡ false → str_lt s t ≡ false → str_lt t s ≡ true
unfolding str_lt str_eq
str_lt_total [] [] h k = ground arith
str_lt_total [] (b ∷ t) h k = ground arith
str_lt_total (a ∷ s) [] h k = refl
str_lt_total (a ∷ s) (b ∷ t) h k = ground (arith, str_lt_total s t)

unfoldable pub is_prefix : Text → Text → Bool
is_prefix [] s = true
is_prefix (p ∷ ps) [] = false
is_prefix (p ∷ ps) (c ∷ s) = p == c && is_prefix ps s

-- s.find(pattern): the first position at which the pattern stands; `none` is npos.
unfoldable pub find : Text → Text → Option ℕ
unfolding is_prefix
find pattern [] = if is_prefix pattern [] then some 0 else none
find pattern (c ∷ s) = if is_prefix pattern (c ∷ s) then some 0 else Option.map suc (find pattern s)

-- The difference of two `size_t`.
unfoldable pub sub_size : ℕ → ℕ → ℕ
sub_size a b = (a + 2 ^ 64 - b) % 2 ^ 64

-- s.substr(pos, n), for pos up to the size of s; what n passes the end by is ignored.
unfoldable pub substr : Text → ℕ → ℕ → Text
substr s pos n = take n (drop pos s)

-- s.substr(pos)
unfoldable pub substr_from : Text → ℕ → Text
substr_from s pos = drop pos s
