-- ===== src/Client/Local/Bounds.antt =====
-- The buffer of agfs_readlink.
use ag_fs.Base.{
  ℕ, ◌+◌, ◌-◌, ◌%◌, ◌≤◌, ◌<◌, ◌^◌, ◌≡◌, refl, List, [], ◌∷◌, ◌++◌, length, length-append, Option,
  none, some, ℤ, pos, neg, ==_refl, arith,
}
use ag_fs.Words.{to_int}
use ag_fs.Monad.{◌>>=◌}
use ag_fs.Os.{Os}
use ag_fs.Text.{Text}
use ag_fs.Client.Local.{LocalCalls, linked, agfs_readlink}

-- What a readlink returns fits what it was asked for.
abbrev pub Fits : Option (List ℕ) → ℕ → Type 0
Fits none n = Unit
Fits (some target) n = length target ≤ n

-- What the buffer of `size` bytes and the result are to be after a readlink that left `errno`.
abbrev pub Answered : ℕ → ℕ → Option (List ℕ) → ℤ × Option (List ℕ) → Type 0
Answered size errno none r = r ≡ (neg errno, some [])
Answered size errno (some target) r =
    (r ≡ (pos 0, some (target ++ 0 ∷ []))) × (length (target ++ 0 ∷ []) ≤ size)

small_length : (n : ℕ) → n < 2 ^ 31 → to_int (pos n) ≡ pos n
small_length n lt = ground arith

linked-Answered :
    (os : Os) (calls : LocalCalls os) (n size : ℕ) (res : Option (List ℕ)) (s : os.State)
    → n + 1 ≤ size
    → size ≤ 2 ^ 31
    → Fits res n
    → Answered size (os.errno s) res (linked os calls res s).0
linked-Answered os calls n size none s lt small fits = refl
linked-Answered os calls n size (some target) s lt small fits =
    rw (small_length (length target) (omega arith), ==_refl (length target))
      (refl, omega (arith, length-append target (0 ∷ [])))

-- For a buffer of at least one byte and at most 2 ^ 31, and a readlink that puts in no more bytes
-- than it is asked for: if it succeeds, agfs_readlink returns 0, and the buffer holds the target
-- and a closing NUL, which do not reach beyond it; if it fails, the result is -errno, and nothing
-- is written.
pub agfs_readlink-Answered :
    (os : Os) (calls : LocalCalls os) (path : Text) (size : ℕ) (s : os.State)
    → 1 ≤ size
    → size ≤ 2 ^ 31
    → ((n : ℕ) → Fits (calls.readlink path n s).0 n)
    → Answered size
        (os.errno (calls.readlink path ((size + (2 ^ 64 - 1)) % 2 ^ 64) s).1)
        (calls.readlink path ((size + (2 ^ 64 - 1)) % 2 ^ 64) s).0
        (agfs_readlink os calls path size s).0
unfolding agfs_readlink ◌>>=◌
agfs_readlink-Answered os calls path size s some_byte small fits =
    let n = (size + (2 ^ 64 - 1)) % 2 ^ 64 in
    let call = calls.readlink path n s in
    linked-Answered os calls n size (call.0) (call.1) (omega arith) small (fits n)
