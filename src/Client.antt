-- ===== src/Client.antt =====
-- src/agfs.cpp: the file system that the client mounts. Its operations choose among the connections
-- to the servers. The connections are a std::map by host name, so they are tried in that order.
pub mod Attributes
pub mod Directories
pub mod Contents
pub mod Startup
pub mod Local
pub mod Threads
pub mod Extended
pub mod Main
pub mod Silence
use ag_fs.Base.{
  ℕ, ◌%◌, ◌^◌, ◌-◌, Bool, ◌&&◌, ltb, not, List, [], ◌∷◌, Option, none, some, ℤ, pos, negsuc, is_neg,
  if◌then◌else◌,
}
pub use ag_fs.Words.{signed_int, to_int}
use ag_fs.Os.{Os}
use ag_fs.Monad.{M, pure, ◌>>=◌, ◌>>◌}
use ag_fs.Text.{Text}
use ag_fs.SortedMap
use ag_fs.SortedMap.{SortedMap}
use ag_fs.Connection.{ServerConnection, connected, access}

abbrev pub Connections : Type 0
Connections = SortedMap ServerConnection

-- file_handle_t
pub record FileHandle : Type 0 where
  pub server : Text
  pub file : Text

-- An entry that `it = connections.find(server)` refers to, if it is also connected.
abbrev pub connected_entry : Option ServerConnection → Option ServerConnection
connected_entry none = none
connected_entry (some c) = if connected c then some c else none

-- F_OK
abbrev pub f_ok : ℕ
f_ok = 0

module _ (os : Os) where
  -- The hosts that have the path; every connection is asked, also one that is closed.
  unfoldable pub check_existance : Connections → Text → M os.State (List Text)
  check_existance [] path = pure []
  check_existance ((host, c) ∷ connections) path = do
    error ← access os c path f_ok
    more ← check_existance connections path
    if is_neg error then pure more else pure (host ∷ more)
