-- ===== src/Os/Pieces.antt =====
-- What a socket is relied on for where transfers may be cut short: a call moves some bytes, at least
-- one, and says how many.
use ag_fs.Base.{ℕ, suc, ◌≡◌, ◌≤◌, List, ◌∷◌, ◌++◌, length, take, Option, some}
use ag_fs.Monad.{M}

module _ {S : Type 0} (outbox : S → List ℕ) where
  -- A write took the first bytes of what it was given.
  pub record Took (bytes : List ℕ) (s : S) (r : Option ℕ × S) : Type 0 where
    pub before_last : ℕ
    pub result : r.0 ≡ some (suc before_last)
    pub fits : suc before_last ≤ length bytes
    pub sent : outbox r.1 ≡ outbox s ++ take (suc before_last) bytes

  -- What is assumed of the writes on a descriptor.
  abbrev pub TakesSome : (List ℕ → M S (Option ℕ)) → Type 0
  TakesSome write = (b : ℕ) (bs : List ℕ) (s : S) → Took (b ∷ bs) s (write (b ∷ bs) s)

module _ {S : Type 0} (inbox outbox : S → List ℕ) where
  -- A read of `n` bytes brought the first bytes of those that are there or on their way, `bytes`,
  -- and wrote nothing.
  pub record Brought (n : ℕ) (bytes : List ℕ) (s : S) (r : Option (List ℕ) × S) : Type 0 where
    pub first : ℕ
    pub others : List ℕ
    pub later : List ℕ
    pub result : r.0 ≡ some (first ∷ others)
    pub fits : length (first ∷ others) ≤ n
    pub whole : bytes ≡ (first ∷ others) ++ later
    pub left : inbox r.1 ≡ later
    pub kept : outbox r.1 ≡ outbox s

  -- What is assumed of the reads on a descriptor.
  abbrev pub BringsSome : (ℕ → M S (Option (List ℕ))) → Type 0
  BringsSome read =
      (n b : ℕ) (bs : List ℕ) (s : S)
      → inbox s ≡ b ∷ bs
      → Brought (suc n) (b ∷ bs) s (read (suc n) s)

  -- What is assumed of the writes to a file: all bytes are taken, and nothing is read.
  pub record Stores (bytes : List ℕ) (s : S) (r : Option ℕ × S) : Type 0 where
    pub result : r.0 ≡ some (length bytes)
    pub stored : outbox r.1 ≡ outbox s ++ bytes
    pub unread : inbox r.1 ≡ inbox s

  abbrev pub StoresAll : (List ℕ → M S (Option ℕ)) → Type 0
  StoresAll write = (b : ℕ) (bs : List ℕ) (s : S) → Stores (b ∷ bs) s (write (b ∷ bs) s)
