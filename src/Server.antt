-- ===== src/Server.antt =====
-- src/agfs-server.hpp and src/agfs-server.cpp: the server's end of a connection. The handlers, one
-- for each command, and the loop that calls them are in the modules below.
pub mod Handlers
pub mod Transfers
pub mod Commands
pub mod Keys
pub mod Admission
use ag_fs.Base.{ℕ, Bool, not, List, [], Option, ℤ, is_neg}
use ag_fs.Monad.{M, pure, ◌>>=◌}
use ag_fs.Os.{Os}
use ag_fs.Stat.{Stat}
use ag_fs.Text.{Text}
use ag_fs.Io.{agfs_read_string}

-- The calls on files that the handlers make, of the system and of Boost.
pub record Files (os : Os) : Type 0 where
  -- boost::filesystem::path::operator/=
  pub join : Text → Text → Text
  -- lstat(path, &buf): `none` is the result -1
  pub lstat : Text → M os.State (Option Stat)
  -- access(path, mask)
  pub access : Text → ℕ → M os.State ℤ
  -- open(path, flags): a descriptor or -1
  pub open_file : Text → ℕ → M os.State ℤ
  -- lseek(fd, offset, SEEK_SET)
  pub lseek : ℤ → ℕ → M os.State ℤ
  -- boost::filesystem::exists and is_directory
  pub exists : Text → M os.State Bool
  pub is_directory : Text → M os.State Bool
  -- boost::filesystem::directory_iterator: the names of the entries, in its order
  pub entries : Text → M os.State (List Text)

abbrev pub o_rdonly : ℕ
o_rdonly = 0

abbrev pub o_wronly : ℕ
o_wronly = 1

pub record ClientConnection : Type 0 where
  pub mount_point : Text
  pub socket : ℤ
  pub beats_missed : ℕ

unfoldable pub connected : ClientConnection → Bool
connected c = not (is_neg c.socket)

-- The path that a request names, under the mount point.
unfoldable pub read_file_path : (os : Os) → Files os → ClientConnection → M os.State Text
read_file_path os files c = do
  (_, path) ← agfs_read_string os c.socket []
  pure (files.join c.mount_point path)
