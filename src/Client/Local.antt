-- ===== src/Client/Local.antt =====
-- src/agfs.cpp: the operations that pass a call on to the local system, and the stubs. A call of
-- the system that fails returns -1 and sets errno.
pub mod Bounds
use ag_fs.Base.{
  ℕ, zero, suc, ◌+◌, ◌-◌, ◌/◌, ◌%◌, ◌^◌, Bool, true, false, ◌==◌, List, [], ◌∷◌, ◌++◌, length, set,
  Option, none, some, ℤ, pos, negsuc, neg, is_neg, if◌then◌else◌,
}
use ag_fs.Monad.{M, pure, gets, ◌>>=◌, ◌>>◌}
use ag_fs.Os.{Os}
use ag_fs.Text.{Text}
use ag_fs.Connection.Connect.{is_minus_one}
use ag_fs.Client.{FileHandle, to_int}

-- The members of a struct timespec, and of a struct timeval.
pub record TimeSpec : Type 0 where
  pub tv_sec : ℤ
  pub tv_nsec : ℕ

pub record TimeVal : Type 0 where
  pub tv_sec : ℤ
  pub tv_usec : ℕ

-- S_ISREG(mode) and S_ISFIFO(mode)
abbrev pub s_isreg : ℕ → Bool
s_isreg mode = mode / 4096 % 16 == 8

abbrev pub s_isfifo : ℕ → Bool
s_isfifo mode = mode / 4096 % 16 == 1

-- The calls of the local system that the operations pass on.
pub record LocalCalls (os : Os) : Type 0 where
  -- readlink(path, buf, n): the bytes that it puts into the buffer; `none` is the result -1
  pub readlink : Text → ℕ → M os.State (Option (List ℕ))
  -- open(path, O_CREAT | O_EXCL | O_WRONLY, mode)
  pub create_file : Text → ℕ → M os.State ℤ
  pub mkfifo : Text → ℕ → M os.State ℤ
  pub mknod : Text → ℕ → ℕ → M os.State ℤ
  pub mkdir : Text → ℕ → M os.State ℤ
  pub unlink : Text → M os.State ℤ
  pub rmdir : Text → M os.State ℤ
  pub symlink : Text → Text → M os.State ℤ
  pub rename : Text → Text → M os.State ℤ
  pub link : Text → Text → M os.State ℤ
  pub chmod : Text → ℕ → M os.State ℤ
  pub lchown : Text → ℕ → ℕ → M os.State ℤ
  pub truncate : Text → ℤ → M os.State ℤ
  pub utimes : Text → TimeVal → TimeVal → M os.State ℤ
  -- statvfs(path, stbuf), without the buffer
  pub statvfs : Text → M os.State ℤ

module _ (os : Os) where
  -- if (res == -1) return -errno; return 0;
  unfoldable pub or_errno : ℤ → M os.State ℤ
  or_errno res = if is_minus_one res then gets (λ s. neg (os.errno s)) else pure (pos 0)

  module _ (calls : LocalCalls os) where
    -- buf[res] = '\0' behind the test of res, where the target is in the buffer.
    abbrev pub end_link : List ℕ → ℤ → M os.State (ℤ × Option (List ℕ))
    end_link target (pos n) =
        pure (pos 0, some (if n == length target then target ++ 0 ∷ [] else set target n 0))
    end_link target (negsuc zero) = gets (λ s. (neg (os.errno s), some target))
    end_link target (negsuc (suc n)) = pure (pos 0, none)

    -- The number of bytes is stored in the int res.
    abbrev pub linked : Option (List ℕ) → M os.State (ℤ × Option (List ℕ))
    linked none = gets (λ s. (neg (os.errno s), some []))
    linked (some target) = end_link target (to_int (pos (length target)))

    -- The result is the int that FUSE gets, and the bytes at the start of the buffer of `size`
    -- bytes; `none` if a byte before the buffer is written.
    unfoldable pub agfs_readlink : Text → ℕ → M os.State (ℤ × Option (List ℕ))
    agfs_readlink path size = do
      res ← calls.readlink path ((size + (2 ^ 64 - 1)) % 2 ^ 64)
      linked res

    abbrev make_node : Text → ℕ → ℕ → M os.State ℤ
    make_node path mode rdev =
        if s_isreg mode
        then (do res ← calls.create_file path mode; if is_neg res then pure res else os.close res)
        else if s_isfifo mode
        then calls.mkfifo path mode
        else calls.mknod path mode rdev

    unfoldable pub agfs_mknod : Text → ℕ → ℕ → M os.State ℤ
    agfs_mknod path mode rdev = do res ← make_node path mode rdev; or_errno res

    unfoldable pub agfs_mkdir : Text → ℕ → M os.State ℤ
    agfs_mkdir path mode = do res ← calls.mkdir path mode; or_errno res

    unfoldable pub agfs_unlink : Text → M os.State ℤ
    agfs_unlink path = do res ← calls.unlink path; or_errno res

    unfoldable pub agfs_rmdir : Text → M os.State ℤ
    agfs_rmdir path = do res ← calls.rmdir path; or_errno res

    unfoldable pub agfs_symlink : Text → Text → M os.State ℤ
    agfs_symlink to from = do res ← calls.symlink to from; or_errno res

    unfoldable pub agfs_rename : Text → Text → M os.State ℤ
    agfs_rename from to = do res ← calls.rename from to; or_errno res

    unfoldable pub agfs_link : Text → Text → M os.State ℤ
    agfs_link from to = do res ← calls.link from to; or_errno res

    unfoldable pub agfs_chmod : Text → ℕ → M os.State ℤ
    agfs_chmod path mode = do res ← calls.chmod path mode; or_errno res

    unfoldable pub agfs_chown : Text → ℕ → ℕ → M os.State ℤ
    agfs_chown path uid gid = do res ← calls.lchown path uid gid; or_errno res

    unfoldable pub agfs_truncate : Text → ℤ → M os.State ℤ
    agfs_truncate path size = do res ← calls.truncate path size; or_errno res

    -- Nanoseconds become microseconds.
    abbrev pub micro : TimeSpec → TimeVal
    micro ts = record { tv_sec = ts.tv_sec; tv_usec = ts.tv_nsec / 1000 }

    unfoldable pub agfs_utimens : Text → TimeSpec → TimeSpec → M os.State ℤ
    agfs_utimens path access modification = do
      res ← calls.utimes path (micro access) (micro modification)
      or_errno res

    unfoldable pub agfs_statfs : Text → M os.State ℤ
    agfs_statfs path = do res ← calls.statvfs path; or_errno res

  -- The stubs, which succeed; agfs_release gives up the file handle.
  unfoldable pub agfs_opendir : Text → M os.State ℤ
  agfs_opendir path = pure (pos 0)

  unfoldable pub agfs_releasedir : Text → M os.State ℤ
  agfs_releasedir path = pure (pos 0)

  unfoldable pub agfs_release : Text → Option FileHandle → M os.State (ℤ × Option FileHandle)
  agfs_release path handle = pure (pos 0, none)

  unfoldable pub agfs_fsync : Text → Bool → M os.State ℤ
  agfs_fsync path isdatasync = pure (pos 0)
