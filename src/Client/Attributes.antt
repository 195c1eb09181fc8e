-- ===== src/Client/Attributes.antt =====
-- src/agfs.cpp: agfs_getattr and agfs_access.
pub mod First
pub mod Answers
pub mod Listed
use ag_fs.Base.{ℕ, Bool, List, [], ◌∷◌, Option, none, some, ℤ, pos, is_neg, if◌then◌else◌}
use ag_fs.Monad.{M, pure, ◌>>=◌}
use ag_fs.Os.{Os}
use ag_fs.Stat.{Stat, zero_stat}
use ag_fs.Text.{Text}
use ag_fs.SortedMap
use ag_fs.Connection.{ServerConnection, connected, getattr, access}
use ag_fs.Disambiguater.{ambiguate}
use ag_fs.Client.{Connections, connected_entry, to_int}

module _ (os : Os) where
  -- The loop over all connections, with the value of `retVal` so far: it stops at the first
  -- connected server whose getattr succeeds.
  unfoldable pub first_getattr : Connections → Text → Stat × ℤ → M os.State (Stat × ℤ)
  first_getattr [] file ret_val = pure ret_val
  first_getattr ((host, c) ∷ connections) file ret_val =
      if connected c
      then (do
        ret_val' ← getattr os c file
        if is_neg ret_val'.1 then first_getattr connections file ret_val' else pure ret_val')
      else first_getattr connections file ret_val

  -- If the server is in the map and connected, only that server is asked.
  abbrev pub getattr_from : Connections → Text → Option ServerConnection → M os.State (Stat × ℤ)
  getattr_from connections file none = first_getattr connections file (zero_stat, pos 0)
  getattr_from connections file (some c) = getattr os c file

  -- The result is the int that FUSE gets, and the stat struct after the call.
  unfoldable pub agfs_getattr : Connections → Text → M os.State (ℤ × Stat)
  unfolding ◌>>=◌
  agfs_getattr connections path =
      let (server, file) = ambiguate path in
      getattr_from connections file (connected_entry (SortedMap.find server connections))
      >>= λ (st, error). pure (to_int error, if is_neg error then zero_stat else st)

  -- The loop over all connections: it stops at the first server, connected or not, whose access
  -- succeeds.
  unfoldable pub first_access : Connections → Text → ℕ → ℤ → M os.State ℤ
  first_access [] file mask res = pure res
  first_access ((host, c) ∷ connections) file mask res = do
    res' ← access os c file mask
    if is_neg res' then first_access connections file mask res' else pure res'

  abbrev pub access_from : Connections → Text → ℕ → Option ServerConnection → M os.State ℤ
  access_from connections file mask none = first_access connections file mask (pos 0)
  access_from connections file mask (some c) = access os c file mask

  unfoldable pub agfs_access : Connections → Text → ℕ → M os.State ℤ
  unfolding ◌>>=◌
  agfs_access connections path mask =
      let (server, file) = ambiguate path in
      do
        res ← access_from connections file mask (SortedMap.find server connections)
        pure (to_int res)
