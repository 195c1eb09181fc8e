-- ===== src/Os.antt =====
-- The system that the programs run on: the byte order of the host, memory that nothing has
-- initialised, and the calls on sockets and files. None of it is code of this repository, so it is
-- a parameter of all that follows. What is assumed of it stands in `Os/Stream.antt`.
pub mod Stream
pub mod Sockets
pub mod Pieces
use ag_fs.Base.{ℕ, zero, suc, ◌+◌, ◌≡◌, refl, ap, List, [], ◌∷◌, length, All, Option, ℤ}
use ag_fs.Words.{Endian}
use ag_fs.Monad.{M}

pub record Os : Type 1 where
  pub State : Type 0
  pub endian : Endian
  -- errno, as the last failed call left it
  pub errno : State → ℕ
  -- the byte at an offset of an object that was never written
  pub uninit : State → ℕ → ℕ
  -- read(fd, buf, n): the bytes that it puts at the start of the buffer; `none` is the result -1
  pub read : ℤ → ℕ → M State (Option (List ℕ))
  -- write(fd, buf, n), with the n bytes: how many it took; `none` is the result -1
  pub write : ℤ → List ℕ → M State (Option ℕ)
  -- close(fd)
  pub close : ℤ → M State ℤ

-- The bytes of an uninitialised object from offset `i` on.
pub junk_from : (ℕ → ℕ) → ℕ → ℕ → List ℕ
junk_from f i zero = []
junk_from f i (suc n) = f i ∷ junk_from f (i + 1) n

-- The contents of an uninitialised object of `n` bytes.
unfoldable pub junk : (os : Os) → os.State → ℕ → List ℕ
unfolding junk_from
junk os s n = junk_from (os.uninit s) 0 n

length-junk_from : (f : ℕ → ℕ) (i n : ℕ) → length (junk_from f i n) ≡ n
unfolding junk_from
length-junk_from f i zero = refl
length-junk_from f i (suc n) = ap suc (length-junk_from f (i + 1) n)

pub length-junk : (os : Os) (s : os.State) (n : ℕ) → length (junk os s n) ≡ n
unfolding junk
length-junk os s n = length-junk_from (os.uninit s) 0 n
