-- ===== src/Server/Admission.antt =====
-- src/agfs-server.cpp: the constructor of ClientConnection, which checks the client's key, changes
-- to the user of that key and looks for the mount point; and the server's process for one client,
-- of src/agfsd.cpp.
pub mod Handshake
use ag_fs.Base.{ℕ, Bool, List, [], Option, none, some, ℤ, pos, negsuc, if◌then◌else◌}
use ag_fs.Monad.{M, pure, ◌>>=◌, ◌>>◌}
use ag_fs.Os.{Os}
use ag_fs.Constants.{cmd_invalid_key, cmd_mount_not_found, cmd_user_not_found}
use ag_fs.Text.{Text}
use ag_fs.Io.{agfs_write_cmd, agfs_read_string}
use ag_fs.Server.{Files, ClientConnection, connected}
use ag_fs.Server.Keys.{find_key}
use ag_fs.Server.Commands.{process_commands}

-- SERVER_BLOCK_SEC and SERVER_BLOCK_USEC
abbrev pub server_block_sec : ℕ
server_block_sec = 10

abbrev pub server_block_usec : ℕ
server_block_usec = 0

-- A user that getpwnam knows.
pub record User : Type 0 where
  pub pw_uid : ℕ
  pub pw_gid : ℕ

-- The calls of the system that the constructor makes.
pub record Accounts (os : Os) : Type 0 where
  -- setsockopt(fd, SO_RCVTIMEO, seconds and microseconds) and ioctl(fd, FIONBIO, 0)
  pub set_timeout : ℤ → ℕ → ℕ → M os.State (Unit {0})
  pub set_blocking : ℤ → M os.State (Unit {0})
  -- the contents of KEY_LIST_PATH; `none` if it cannot be opened
  pub key_list : M os.State (Option Text)
  -- getpwnam(user)
  pub getpwnam : Text → M os.State (Option User)
  -- setuid(uid) and setgid(gid)
  pub setuid : ℕ → M os.State ℤ
  pub setgid : ℕ → M os.State ℤ

-- `raw` is what the memory of the member beatsMissed_ holds before the constructor runs.
module _ (os : Os) (files : Files os) (accounts : Accounts os) (raw : ℕ) where
  -- The client is told why it is turned away. The member beatsMissed_ is not set.
  unfoldable pub turn_away : ℤ → ℕ → M os.State ClientConnection
  turn_away connfd cmd = do
    agfs_write_cmd os connfd cmd
    os.close connfd
    pure (record { mount_point = []; socket = negsuc 0; beats_missed = raw })

  abbrev enter_mount : ℤ → Text → Bool → M os.State ClientConnection
  enter_mount connfd mount_path there =
      if there
      then pure (record { mount_point = mount_path; socket = connfd; beats_missed = 0 })
      else turn_away connfd cmd_mount_not_found

  -- The results of setuid and setgid are not looked at.
  abbrev become_user : ℤ → Text → Option User → M os.State ClientConnection
  become_user connfd mount_path none = turn_away connfd cmd_user_not_found
  become_user connfd mount_path (some user_pwd) = do
    accounts.setuid user_pwd.pw_uid
    accounts.setgid user_pwd.pw_gid
    there ← files.exists mount_path
    enter_mount connfd mount_path there

  unfoldable pub admit : ℤ → Option (Text × Text) → M os.State ClientConnection
  unfolding turn_away
  admit connfd none = turn_away connfd cmd_invalid_key
  admit connfd (some (mount_path, user)) = do
    user_pwd ← accounts.getpwnam user
    become_user connfd mount_path user_pwd

  abbrev admit_if_decided : ℤ → Option (Option (Text × Text)) → M os.State (Option ClientConnection)
  admit_if_decided connfd none = pure none
  admit_if_decided connfd (some found) = do c ← admit connfd found; pure (some c)

  -- `fuel` bounds the rounds of the loop over the keys; `none` where it would go on.
  unfoldable pub client_connection : ℕ → ℤ → M os.State (Option ClientConnection)
  unfolding admit
  client_connection fuel connfd = do
    accounts.set_timeout connfd server_block_sec server_block_usec
    accounts.set_blocking connfd
    (_, client_key) ← agfs_read_string os connfd []
    contents ← accounts.key_list
    admit_if_decided connfd (find_key fuel client_key contents)

  abbrev serve_if_decided : ℕ → Option ClientConnection → M os.State (Option ClientConnection)
  serve_if_decided rounds none = pure none
  serve_if_decided rounds (some client) =
      if connected client then process_commands os files rounds client else pure (some client)

  -- The client's object, and its commands if it is connected.
  unfoldable pub serve_connection : ℕ → ℕ → ℤ → M os.State (Option ClientConnection)
  unfolding client_connection
  serve_connection fuel rounds connfd = do
    client ← client_connection fuel connfd
    serve_if_decided rounds client

  -- The process that agfsd forks for a client; `lfd` is the socket that the daemon listens on.
  -- `rounds` bounds the rounds of processCommands.
  unfoldable pub serve_client : ℕ → ℕ → ℤ → ℤ → M os.State (Option ClientConnection)
  unfolding serve_connection
  serve_client fuel rounds lfd connfd = do os.close lfd; serve_connection fuel rounds connfd
