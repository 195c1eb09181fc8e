-- ===== src/Monad.antt =====
-- Code that reads and changes the state of the machine: a function from the state to a result and
-- the state after it.
pub mod Results

abbrev pub M : Type 0 → Type 0 → Type 0
M S A = S → A × S

abbrev pub pure : {S A : Type 0} → A → M S A
pure a s = (a, s)

abbrev pub gets : {S A : Type 0} → (S → A) → M S A
gets f s = (f s, s)

infixl 5 ◌>>=◌ ◌>>◌
unfoldable pub ◌>>=◌ : {S A B : Type 0} → M S A → (A → M S B) → M S B
◌>>=◌ m f s = let (a, t) = m s in f a t

abbrev pub ◌>>◌ : {S A B : Type 0} → M S A → M S B → M S B
m >> n = m >>= λ _. n
