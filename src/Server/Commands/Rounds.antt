-- ===== src/Server/Commands/Rounds.antt =====
-- One round of the loop of processCommands, on a stream that holds a request.
use ag_fs.Base.{ℕ, refl, append-nil, ◌^◌, ◌<◌, true, false, List, [], ◌++◌, ℤ, negsuc, arith}
use ag_fs.Os.{Os}
use ag_fs.Os.Stream.{Stream, Talks, Talks-pure, Talks-cast, Talks-bind, Talks-last}
use ag_fs.Constants.{
  cmd_stop, cmd_heartbeat, cmd_getattr, cmd_access, cmd_readdir, cmd_read, cmd_write, cmd_open,
}
use ag_fs.Io.Frames.{cmd_frame}
use ag_fs.Io.Receive.{agfs_read_cmd-Talks}
use ag_fs.Server.{Files, ClientConnection}
use ag_fs.Server.Handlers.{
  process_heartbeat, process_get_attr, process_access, process_readdir, process_open,
}
use ag_fs.Server.Transfers.{process_read, process_write}
use ag_fs.Server.Commands.{dispatch, command_round, Round}

module _ (os : Os) (files : Files os) (c : ClientConnection) {V : Type 0}
    (t : Stream os c.socket V) where
  -- The round reads the command and goes on as the switch does.
  pub command_round-Talks :
      {v v' : V} {i o : List ℕ} {r : Round} (cmd : ℕ)
      → cmd < 2 ^ 16
      → Talks t.ends (dispatch os files c cmd) v i o r v'
      → Talks t.ends (command_round os files c) v (cmd_frame cmd ++ i) o r v'
  unfolding command_round
  command_round-Talks {v} cmd lt d = Talks-bind _ (agfs_read_cmd-Talks os t v cmd cmd_getattr lt) d

  module _ {v v' : V} {i o : List ℕ} where
    pub round_getattr :
        Talks t.ends (process_get_attr os files c) v i o tt v'
        → Talks t.ends (command_round os files c) v (cmd_frame cmd_getattr ++ i) o (true, c) v'
    unfolding dispatch
    round_getattr h = command_round-Talks cmd_getattr (omega arith) (Talks-last _ h (Talks-pure _))

    pub round_access :
        Talks t.ends (process_access os files c) v i o tt v'
        → Talks t.ends (command_round os files c) v (cmd_frame cmd_access ++ i) o (true, c) v'
    unfolding dispatch
    round_access h = command_round-Talks cmd_access (omega arith) (Talks-last _ h (Talks-pure _))

    pub round_open :
        Talks t.ends (process_open os files c) v i o tt v'
        → Talks t.ends (command_round os files c) v (cmd_frame cmd_open ++ i) o (true, c) v'
    unfolding dispatch
    round_open h = command_round-Talks cmd_open (omega arith) (Talks-last _ h (Talks-pure _))

    pub round_heartbeat :
        {r : ℤ}
        → Talks t.ends (process_heartbeat os files c) v i o r v'
        → Talks t.ends (command_round os files c) v (cmd_frame cmd_heartbeat ++ i) o (true, c) v'
    unfolding dispatch
    round_heartbeat h =
        command_round-Talks cmd_heartbeat (omega arith) (Talks-last _ h (Talks-pure _))

    pub round_read :
        Talks t.ends (process_read os files c) v i o tt v'
        → Talks t.ends (command_round os files c) v (cmd_frame cmd_read ++ i) o (true, c) v'
    unfolding dispatch
    round_read h = command_round-Talks cmd_read (omega arith) (Talks-last _ h (Talks-pure _))

    pub round_write :
        Talks t.ends (process_write os files c) v i o tt v'
        → Talks t.ends (command_round os files c) v (cmd_frame cmd_write ++ i) o (true, c) v'
    unfolding dispatch
    round_write h = command_round-Talks cmd_write (omega arith) (Talks-last _ h (Talks-pure _))

    pub round_readdir :
        Talks t.ends (process_readdir os files c) v i o tt v'
        → Talks t.ends (command_round os files c) v (cmd_frame cmd_readdir ++ i) o (true, c) v'
    unfolding dispatch
    round_readdir h = command_round-Talks cmd_readdir (omega arith) (Talks-last _ h (Talks-pure _))

  -- The round that stops.
  pub round_stop :
      (v : V)
      → Talks t.ends
          (command_round os files c)
          v
          (cmd_frame cmd_stop)
          []
          (false, record c { socket = negsuc 0 })
          v
  unfolding dispatch
  round_stop v = Talks-cast (append-nil _) refl (
      command_round-Talks cmd_stop (omega arith) (Talks-bind _ (t.close_succeeds v) (Talks-pure _)))
