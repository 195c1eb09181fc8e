-- ===== src/Protocol/Beat.antt =====
-- A heartbeat of the client against a round of the server. `s` is the client's machine and `s'` the
-- server's.
use ag_fs.Base.{ℕ, ◌≡◌, refl, true, List, [], ◌++◌, pos, append-nil, arith}
use ag_fs.Os.{Os}
use ag_fs.Os.Stream.{Stream, Reached, Talks, Talks-pure, Talks-cast, Talks-last, Talks-then_read}
use ag_fs.Constants.{cmd_heartbeat, cmd_none}
use ag_fs.Io.Frames.{cmd_frame}
use ag_fs.Io.Send.{agfs_write_cmd-Talks}
use ag_fs.Io.Receive.{agfs_read_cmd-Talks}
use ag_fs.Connection.{ServerConnection, heartbeat}
use ag_fs.Server.{Files, ClientConnection}
use ag_fs.Server.Handlers.{process_heartbeat}
use ag_fs.Server.Commands.{command_round}
use ag_fs.Server.Commands.Rounds.{round_heartbeat}

pub heartbeat-Talks :
    (os : Os) (c : ServerConnection) {W : Type 0} (t : Stream os c.socket W) (w : W)
    → Talks t.ends
        (heartbeat os c)
        w
        (cmd_frame cmd_heartbeat)
        (cmd_frame cmd_heartbeat)
        (pos 0, c)
        w
unfolding heartbeat
heartbeat-Talks os c t w =
    Talks-then_read _ (agfs_write_cmd-Talks os t w cmd_heartbeat) (
      Talks-last _ (agfs_read_cmd-Talks os t w cmd_heartbeat cmd_none (omega arith)) (Talks-pure _))

pub process_heartbeat-Talks :
    (os : Os) (files : Files os) (c : ClientConnection) {V : Type 0} (t : Stream os c.socket V)
    (v : V)
    → Talks t.ends (process_heartbeat os files c) v [] (cmd_frame cmd_heartbeat) (pos 2) v
unfolding process_heartbeat
process_heartbeat-Talks os files c t v = agfs_write_cmd-Talks os t v cmd_heartbeat

-- A heartbeat that the server answers, where each end finds what the other writes, keeps the
-- connection open at both ends: the client's object does not change, and the server goes on with
-- the count of missed beats that it had.
pub heartbeat_remote :
    (client host : Os) (files : Files host) (c : ServerConnection) (d : ClientConnection)
    {W V : Type 0} (t : Stream client c.socket W) (u : Stream host d.socket V) (s : client.State)
    (s' : host.State) (rest rest' : List ℕ)
    → t.ends.inbox s ≡ cmd_frame cmd_heartbeat ++ rest
    → u.ends.inbox s' ≡ cmd_frame cmd_heartbeat ++ rest'
    → Reached t.ends
        (heartbeat client c)
        s
        rest
        (cmd_frame cmd_heartbeat)
        (pos 0, c)
        (t.ends.view s)
      × Reached u.ends
          (command_round host files d)
          s'
          rest'
          (cmd_frame cmd_heartbeat)
          (true, d)
          (u.ends.view s')
heartbeat_remote client host files c d t u s s' rest rest' hc hs = (
  (heartbeat-Talks client c t (t.ends.view s)).at s rest refl hc,
  (Talks-cast (append-nil _) refl (
        round_heartbeat host files d u
          (process_heartbeat-Talks host files d u (u.ends.view s')))).at
      s' rest' refl hs,
)
