-- ===== src/Monad/Results.antt =====
-- Statements about the result of an action, whatever the state is.
use ag_fs.Base.{Bool, true, false, if◌then◌else◌}
use ag_fs.Monad.{M, ◌>>=◌}

-- What is true of the result of an action from every state.
abbrev pub Ensures : {S A : Type 0} → (A → Type 0) → M S A → Type 0
Ensures P m = (s : _) → P (m s).0

module _ {S A : Type 0} (P : A → Type 0) where
  pub Ensures-if :
      (b : Bool) (m n : M S A) → Ensures P m → Ensures P n → Ensures P (if b then m else n)
  Ensures-if true m n h k = h
  Ensures-if false m n h k = k

  pub Ensures-bind :
      {B : Type 0} (Q : B → Type 0) (m : M S B) (f : B → M S A)
      → Ensures Q m
      → ((x : B) → Q x → Ensures P (f x))
      → Ensures P (m >>= f)
  unfolding ◌>>=◌
  Ensures-bind Q m f h k s = k (m s).0 (h s) (m s).1

abbrev pub Any : {A : Type 0} → A → Type 0
Any x = Unit
