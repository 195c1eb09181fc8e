-- ===== src/Client/Contents.antt =====
-- src/agfs.cpp: agfs_open, agfs_read, agfs_write and agfs_release, over a file handle.
pub mod Opening
pub mod Answers
pub mod Remote
use ag_fs.Base.{
  ℕ, ◌%◌, ◌^◌, Bool, List, [], ◌∷◌, length, Option, none, some, ℤ, pos, neg, is_neg, if◌then◌else◌,
}
use ag_fs.Monad.{M, pure, ◌>>=◌}
use ag_fs.Os.{Os}
use ag_fs.Constants.{enoent}
use ag_fs.Text.{Text}
use ag_fs.SortedMap
use ag_fs.Connection.{ServerConnection, open_path, read_file, write_file}
use ag_fs.Disambiguater.{ambiguate}
use ag_fs.Client.{Connections, FileHandle, connected_entry, check_existance, to_int, signed_int}

module _ (os : Os) where
  abbrev pub open_on :
      Text → Text → ℕ → Option ServerConnection → M os.State (ℤ × Option FileHandle)
  open_on server file flags none = pure (to_int (neg enoent), none)
  open_on server file flags (some c) = do
    error ← open_path os c file flags
    pure (
      to_int error,
      if is_neg error then none else some (record { server = server; file = file }),
    )

  -- The server that is asked where the name has none: the only one that has the path.
  abbrev only : List Text → Option Text
  only (server ∷ []) = some server
  only _ = none

  abbrev pub choose : Connections → Text → Text → M os.State (Option Text)
  choose connections path [] = do servers ← check_existance os connections path; pure (only servers)
  choose connections path (b ∷ server) = pure (some (b ∷ server))

  abbrev pub open_chosen : Connections → Text → ℕ → Option Text → M os.State (ℤ × Option FileHandle)
  open_chosen connections file flags none = pure (to_int (neg enoent), none)
  open_chosen connections file flags (some server) =
      open_on server file flags (connected_entry (SortedMap.find server connections))

  -- The result is the int that FUSE gets, and the file handle that is put into fi->fh, if any.
  unfoldable pub agfs_open : Connections → Text → ℕ → M os.State (ℤ × Option FileHandle)
  unfolding ◌>>=◌
  agfs_open connections path flags =
      let (server, file) = ambiguate path in
      do chosen ← choose connections path server; open_chosen connections file flags chosen

  abbrev pub read_on : Text → ℕ → ℕ → Option ServerConnection → M os.State (ℤ × List ℕ)
  read_on file size offset none = pure (to_int (neg enoent), [])
  read_on file size offset (some c) = do
    (bytes, error) ← read_file os c file size offset
    if is_neg error
        then pure (to_int error, [])
        else pure (signed_int (length bytes % 2 ^ 32), bytes)

  -- The result is the int that FUSE gets, and the bytes copied to the start of its buffer.
  unfoldable pub agfs_read : Connections → FileHandle → ℕ → ℕ → M os.State (ℤ × List ℕ)
  agfs_read connections handle size offset =
      read_on handle.file size offset (connected_entry (SortedMap.find handle.server connections))

  abbrev pub write_on : Text → ℕ → ℕ → List ℕ → Option ServerConnection → M os.State ℤ
  write_on file size offset buf none = pure (to_int (neg enoent))
  write_on file size offset buf (some c) = do
    (total, error) ← write_file os c file size offset buf
    pure (if is_neg error then to_int error else signed_int (total % 2 ^ 32))

  unfoldable pub agfs_write : Connections → FileHandle → List ℕ → ℕ → ℕ → M os.State ℤ
  agfs_write connections handle buf size offset =
      write_on handle.file size offset buf
        (connected_entry (SortedMap.find handle.server connections))
