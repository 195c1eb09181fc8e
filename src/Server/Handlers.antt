-- ===== src/Server/Handlers.antt =====
-- src/agfs-server.cpp: the handlers for attributes, access, directories and open.
pub mod Answers
pub mod Readdir
use ag_fs.Base.{List, [], ◌∷◌, length, Option, none, some, ℤ, pos, neg, is_neg, if◌then◌else◌}
use ag_fs.Words.{load}
use ag_fs.Monad.{M, pure, gets, ◌>>=◌, ◌>>◌}
use ag_fs.Os.{Os, junk}
use ag_fs.Constants.{cmd_heartbeat, enoent, enotdir}
use ag_fs.Stat.{Stat, zero_stat}
use ag_fs.Text.{Text}
use ag_fs.Io.{
  agfs_write_cmd, agfs_read_mask, agfs_write_size, agfs_write_error, agfs_write_string,
  agfs_write_stat,
}
use ag_fs.Server.{Files, ClientConnection, read_file_path}

module _ (os : Os) (files : Files os) where
  -- lstat, with the error that the handler makes of its result.
  abbrev stat_or_error : Option Stat → M os.State (ℤ × Stat)
  stat_or_error none = gets (λ s. (neg (os.errno s), zero_stat))
  stat_or_error (some st) = pure (pos 0, st)

  unfoldable pub process_heartbeat : ClientConnection → M os.State ℤ
  process_heartbeat c = agfs_write_cmd os c.socket cmd_heartbeat

  unfoldable pub process_get_attr : ClientConnection → M os.State (Unit {0})
  process_get_attr c = do
    file ← read_file_path os files c
    found ← files.lstat file
    (error, ret_value) ← stat_or_error found
    agfs_write_error os c.socket error
    if is_neg error then pure tt else do agfs_write_stat os c.socket ret_value; pure tt

  -- The mask is read into an uninitialised variable.
  unfoldable pub process_access : ClientConnection → M os.State (Unit {0})
  process_access c = do
    file ← read_file_path os files c
    mask ← gets (λ s. load os.endian (junk os s 4))
    (_, mask') ← agfs_read_mask os c.socket mask
    result ← files.access file mask'
    agfs_write_error os c.socket result
    pure tt

  -- The second loop over the directory: each name and its stat, zeroed if lstat fails.
  unfoldable pub write_entries : ℤ → Text → List Text → M os.State (Unit {0})
  write_entries fd file [] = pure tt
  write_entries fd file (name ∷ names) = do
    agfs_write_string os fd name
    found ← files.lstat (files.join file name)
    agfs_write_stat os fd (elim found [ none ↦ zero_stat | some stbuf ↦ stbuf ])
    write_entries fd file names

  unfoldable pub process_readdir : ClientConnection → M os.State (Unit {0})
  unfolding write_entries
  process_readdir c = do
    file ← read_file_path os files c
    there ← files.exists file
    let error = if there then pos 0 else neg enoent
    directory ← files.is_directory file
    let error' = if directory then error else neg enotdir
    agfs_write_error os c.socket error'
    if is_neg error' then pure tt else do
      counted ← files.entries file
      agfs_write_size os c.socket (length counted)
      names ← files.entries file
      write_entries c.socket file names

  -- The descriptor is closed at once, also where it is -1.
  unfoldable pub process_open : ClientConnection → M os.State (Unit {0})
  process_open c = do
    file ← read_file_path os files c
    (_, mask) ← agfs_read_mask os c.socket 0
    fd ← files.open_file file mask
    error ← gets (λ s. if is_neg fd then neg (os.errno s) else pos 0)
    os.close fd
    agfs_write_error os c.socket error
    pure tt

  -- processRelease is empty, and no command calls it.
  unfoldable pub process_release : ClientConnection → M os.State (Unit {0})
  process_release c = pure tt
