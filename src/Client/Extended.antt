-- ===== src/Client/Extended.antt =====
-- src/agfs.cpp: the operations on extended attributes, which are compiled only if the macro
-- HAVE_SETXATTR is set.
use ag_fs.Base.{ℕ, List, ℤ, neg, if◌then◌else◌}
use ag_fs.Monad.{M, pure, gets, ◌>>=◌}
use ag_fs.Os.{Os}
use ag_fs.Text.{Text}
use ag_fs.Connection.Connect.{is_minus_one}
use ag_fs.Client.{to_int}
use ag_fs.Client.Local.{or_errno}

pub record XattrCalls (os : Os) : Type 0 where
  pub lsetxattr : Text → Text → List ℕ → ℕ → ℕ → M os.State ℤ
  -- the result, and the bytes that are put at the start of the buffer of this size
  pub lgetxattr : Text → Text → ℕ → M os.State (ℤ × List ℕ)
  pub llistxattr : Text → ℕ → M os.State (ℤ × List ℕ)
  pub lremovexattr : Text → Text → M os.State ℤ

module _ (os : Os) (calls : XattrCalls os) where
  unfoldable pub agfs_setxattr : Text → Text → List ℕ → ℕ → ℕ → M os.State ℤ
  agfs_setxattr path name value size flags = do
    res ← calls.lsetxattr path name value size flags
    or_errno os res

  -- if (res == -1) return -errno; return res; with the ssize_t of the call in an int.
  abbrev sized : ℤ × List ℕ → M os.State (ℤ × List ℕ)
  sized (res, buffer) =
      if is_minus_one (to_int res)
      then gets (λ s. (neg (os.errno s), buffer))
      else pure (to_int res, buffer)

  unfoldable pub agfs_getxattr : Text → Text → ℕ → M os.State (ℤ × List ℕ)
  agfs_getxattr path name size = do got ← calls.lgetxattr path name size; sized got

  unfoldable pub agfs_listxattr : Text → ℕ → M os.State (ℤ × List ℕ)
  agfs_listxattr path size = do got ← calls.llistxattr path size; sized got

  unfoldable pub agfs_removexattr : Text → Text → M os.State ℤ
  agfs_removexattr path name = do res ← calls.lremovexattr path name; or_errno os res
