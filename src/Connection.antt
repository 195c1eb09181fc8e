-- ===== src/Connection.antt =====
-- src/serverconnection.hpp and src/serverconnection.cpp: the client's end of a connection. Each
-- method holds the object's mutex from its first to its last step, so it is one action here.
pub mod Connect
pub mod Greeting
pub mod Reading
pub mod Writing
pub mod Pieces
pub mod Calls
pub mod Heartbeat
pub mod Silence
use ag_fs.Base.{
  ℕ, zero, suc, ◌+◌, ◌-◌, Bool, true, false, not, ◌==◌, List, [], ◌∷◌, length, drop, replicate,
  Option, none, some, ℤ, pos, negsuc, neg, is_neg, min_ℤ, is_pos, pos_part, if◌then◌else◌,
}
use ag_fs.Words.{load, of_word}
use ag_fs.Monad.{M, pure, gets, ◌>>=◌, ◌>>◌}
use ag_fs.Os.{Os, junk}
use ag_fs.Constants.{
  cmd_stop, cmd_heartbeat, cmd_getattr, cmd_access, cmd_readdir, cmd_read, cmd_write, cmd_none,
  cmd_open,
}
use ag_fs.Stat.{Stat, zero_stat}
use ag_fs.Text.{Text}
use ag_fs.Io.{
  filled, read_object, write_object, agfs_write_cmd, agfs_read_cmd, agfs_write_mask,
  agfs_write_size, agfs_read_size, agfs_read_error, agfs_write_string, agfs_read_string,
  agfs_read_stat,
}

pub record ServerConnection : Type 0 where
  pub failed_command : Bool
  pub connection_stopped : Bool
  pub hostname : Text
  pub port : Text
  pub key : Text
  pub socket : ℤ
  pub closed : Bool

-- The copy constructor: every member is copied, the descriptor of the socket too.
abbrev pub copy : ServerConnection → ServerConnection
copy c = record {
  failed_command = c.failed_command;
  connection_stopped = c.connection_stopped;
  hostname = c.hostname;
  port = c.port;
  key = c.key;
  socket = c.socket;
  closed = c.closed;
}

unfoldable pub connected : ServerConnection → Bool
connected c = not (is_neg c.socket)

unfoldable pub stopped : ServerConnection → Bool
stopped c = c.connection_stopped

module _ (os : Os) where
  unfoldable pub stop : ServerConnection → M os.State (ℤ × ServerConnection)
  unfolding connected
  stop c =
      if connected c
      then (do
        agfs_write_cmd os c.socket cmd_stop
        error ← os.close c.socket
        pure (error, record c { socket = negsuc 0; closed = true }))
      else pure (pos 0, record c { closed = true })

  unfoldable pub getattr : ServerConnection → Text → M os.State (Stat × ℤ)
  getattr c path = do
    agfs_write_cmd os c.socket cmd_getattr
    agfs_write_string os c.socket path
    (_, error) ← agfs_read_error os c.socket (pos 0)
    if is_neg error
        then pure (zero_stat, error)
        else do (_, read_values) ← agfs_read_stat os c.socket; pure (read_values, error)

  -- The result starts as an uninitialised variable.
  unfoldable pub access : ServerConnection → Text → ℕ → M os.State ℤ
  access c path mask = do
    agfs_write_cmd os c.socket cmd_access
    agfs_write_string os c.socket path
    agfs_write_mask os c.socket mask
    ret_value ← gets (λ s. of_word (load os.endian (junk os s 8)))
    (_, ret_value') ← agfs_read_error os c.socket ret_value
    pure ret_value'

  -- The loop of readdir over the entries that are still to come.
  unfoldable pub read_entries : ℤ → ℕ → M os.State (List (Text × Stat))
  read_entries fd zero = pure []
  read_entries fd (suc count) = do
    (_, file) ← agfs_read_string os fd []
    (_, stbuf) ← agfs_read_stat os fd
    files ← read_entries fd count
    pure ((file, stbuf) ∷ files)

  unfoldable pub readdir : ServerConnection → Text → M os.State (List (Text × Stat) × ℤ)
  readdir c path = do
    agfs_write_cmd os c.socket cmd_readdir
    agfs_write_string os c.socket path
    (_, error) ← agfs_read_error os c.socket (pos 0)
    if is_neg error then pure ([], error) else do
      (_, count) ← agfs_read_size os c.socket 0
      files ← read_entries c.socket count
      pure (files, error)

  -- The vector is resized with zeros and filled by one read.
  unfoldable pub read_file : ServerConnection → Text → ℕ → ℕ → M os.State (List ℕ × ℤ)
  read_file c path size offset = do
    agfs_write_cmd os c.socket cmd_read
    agfs_write_string os c.socket path
    agfs_write_size os c.socket size
    agfs_write_size os c.socket offset
    (_, error) ← agfs_read_error os c.socket (pos 0)
    if is_neg error then pure ([], error) else do
      (_, amount_read) ← agfs_read_size os c.socket 0
      (got, bytes) ← read_object os c.socket amount_read (replicate amount_read 0)
      pure (bytes, min_ℤ got error)

  -- The loop that writes the buffer to the socket, from the number of bytes written and the value
  -- of `error` so far. Every round but the last writes a byte at least, so `size` rounds are
  -- enough.
  unfoldable pub send_loop : ℕ → ℤ → List ℕ → ℕ → ℕ → ℤ → M os.State (ℕ × ℤ)
  send_loop zero fd buf size total error = pure (total, error)
  send_loop (suc fuel) fd buf size total error = if total == size then pure (total, error) else do
    took ← write_object os fd (drop total buf)
    if is_pos took
        then send_loop fuel fd buf size (total + pos_part took) took
        else pure (total, took)

  unfoldable pub write_file : ServerConnection → Text → ℕ → ℕ → List ℕ → M os.State (ℕ × ℤ)
  unfolding send_loop
  write_file c path size offset buf = do
    agfs_write_cmd os c.socket cmd_write
    agfs_write_string os c.socket path
    (_, error) ← agfs_read_error os c.socket (pos 0)
    if is_neg error then pure (0, error) else do
      agfs_write_size os c.socket size
      agfs_write_size os c.socket offset
      (total, sent) ← send_loop size c.socket buf size 0 error
      if is_neg sent then gets (λ s. (0, neg (os.errno s))) else do
        (_, result) ← agfs_read_error os c.socket sent
        if is_neg result
            then pure (total, result)
            else do (_, total') ← agfs_read_size os c.socket total; pure (total', result)

  unfoldable pub open_path : ServerConnection → Text → ℕ → M os.State ℤ
  open_path c path flags = do
    agfs_write_cmd os c.socket cmd_open
    agfs_write_string os c.socket path
    agfs_write_mask os c.socket flags
    (_, error) ← agfs_read_error os c.socket (pos 0)
    pure error

  -- The socket is closed if the response is still NONE.
  unfoldable pub heartbeat : ServerConnection → M os.State (ℤ × ServerConnection)
  heartbeat c = do
    agfs_write_cmd os c.socket cmd_heartbeat
    (_, resp) ← agfs_read_cmd os c.socket cmd_none
    if resp == cmd_none
        then (do os.close c.socket; pure (pos 0, record c { socket = negsuc 0 }))
        else pure (pos 0, c)
