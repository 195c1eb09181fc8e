-- ===== src/Server/Commands.antt =====
-- src/agfs-server.cpp: processCommands, the loop that serves one client.
pub mod Rounds
pub mod Beats
pub mod Misses
use ag_fs.Base.{
  ℕ, zero, suc, ◌+◌, Bool, true, false, ◌==◌, ltb, Option, none, some, negsuc, is_pos,
  if◌then◌else◌,
}
use ag_fs.Monad.{M, pure, ◌>>=◌, ◌>>◌}
use ag_fs.Os.{Os}
use ag_fs.Constants.{
  cmd_stop, cmd_heartbeat, cmd_getattr, cmd_accept, cmd_access, cmd_readdir, cmd_read, cmd_write,
  cmd_open,
}
use ag_fs.Io.{agfs_write_cmd, agfs_read_cmd}
use ag_fs.Server.{Files, ClientConnection}
use ag_fs.Server.Handlers.{
  process_heartbeat, process_get_attr, process_access, process_readdir, process_open,
}
use ag_fs.Server.Transfers.{process_read, process_write}

-- Whether the loop goes on, and the object after the round.
abbrev pub Round : Type 0
Round = Bool × ClientConnection

module _ (os : Os) (files : Files os) where
  -- The handler is run, and the loop goes on.
  abbrev after : {A : Type 0} → ClientConnection → M os.State A → M os.State Round
  after c handler = do handler; pure (true, c)

  -- The switch on the command.
  unfoldable pub dispatch : ClientConnection → ℕ → M os.State Round
  dispatch c cmd =
      if cmd == cmd_stop
      then (do os.close c.socket; pure (false, record c { socket = negsuc 0 }))
      else if cmd == cmd_heartbeat
      then after c (process_heartbeat os files c)
      else if cmd == cmd_getattr
      then after c (process_get_attr os files c)
      else if cmd == cmd_readdir
      then after c (process_readdir os files c)
      else if cmd == cmd_access
      then after c (process_access os files c)
      else if cmd == cmd_read
      then after c (process_read os files c)
      else if cmd == cmd_write
      then after c (process_write os files c)
      else if cmd == cmd_open
      then after c (process_open os files c)
      else pure (true, c)

  -- A read that brought nothing: the sixth one ends the connection.
  unfoldable pub miss_beat : ClientConnection → M os.State Round
  miss_beat c =
      let missed = c.beats_missed + 1 in
      if ltb 5 missed
      then (do
        os.close c.socket
        pure (false, record c { socket = negsuc 0; beats_missed = missed }))
      else pure (true, record c { beats_missed = missed })

  -- One round of the loop.
  unfoldable pub command_round : ClientConnection → M os.State Round
  unfolding dispatch miss_beat
  command_round c = do
    (resp_val, cmd) ← agfs_read_cmd os c.socket cmd_getattr
    if is_pos resp_val then dispatch c cmd else miss_beat c

  -- `fuel` rounds of the loop; `none` where it would go on.
  unfoldable pub command_loop : ℕ → ClientConnection → M os.State (Option ClientConnection)
  command_loop zero c = pure none
  command_loop (suc fuel) c = do
    (more, c') ← command_round c
    if more then command_loop fuel c' else pure (some c')

  unfoldable pub process_commands : ℕ → ClientConnection → M os.State (Option ClientConnection)
  unfolding command_loop command_round
  process_commands fuel c = do agfs_write_cmd os c.socket cmd_accept; command_loop fuel c
