-- ===== src/Connection/Heartbeat.antt =====
-- What a client makes of a heartbeat that is not answered.
use ag_fs.Base.{ℕ, ◌≡◌, refl, none, ℤ, pos, negsuc, ◌==◌, if◌then◌else◌, arith}
use ag_fs.Words.{Endian, little, big}
use ag_fs.Monad.{M, pure, ◌>>=◌}
use ag_fs.Os.{Os}
use ag_fs.Constants.{cmd_heartbeat, cmd_none}
use ag_fs.Io.{agfs_write_cmd}
use ag_fs.Io.Faults.{swapped, agfs_read_cmd_failed}
use ag_fs.Connection.{ServerConnection, heartbeat}

-- The connection after a heartbeat that timed out: closed only on a host that stores the highest
-- byte first. On the other hosts the default response NONE, 11, has become 11 * 256.
abbrev pub timed_out : Endian → ServerConnection → ServerConnection
timed_out little c = c
timed_out big c = record c { socket = negsuc 0 }

close_if_none : (os : Os) → ServerConnection → ℕ → M os.State (ℤ × ServerConnection)
close_if_none os c resp =
    if resp == cmd_none
    then (os.close c.socket >>= λ _. pure (pos 0, record c { socket = negsuc 0 }))
    else pure (pos 0, c)

judged :
    (os : Os) (c : ServerConnection) (e : Endian) (t : os.State)
    → (close_if_none os c (swapped e cmd_none) t).0 ≡ (pos 0, timed_out e c)
unfolding close_if_none ◌>>=◌
judged os c little t = refl
judged os c big t = refl

-- After a heartbeat whose answer cannot be read, the result is 0. A host that stores the highest
-- byte first has closed the socket; a host that stores the lowest byte first has changed nothing,
-- and the connection still counts as connected.
pub heartbeat_unanswered :
    (os : Os) (c : ServerConnection) (s : os.State)
    → (os.read c.socket 2 (agfs_write_cmd os c.socket cmd_heartbeat s).1).0 ≡ none
    → (heartbeat os c s).0 ≡ (pos 0, timed_out os.endian c)
unfolding heartbeat close_if_none ◌>>=◌
heartbeat_unanswered os c s silent =
    rw (agfs_read_cmd_failed os c.socket _ cmd_none (omega arith) silent) (judged os c os.endian _)
