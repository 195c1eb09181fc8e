-- ===== src/Protocol/Session.antt =====
-- A session: a client that connects, makes any calls of the methods of ServerConnection one after
-- the other, and stops.
pub mod Served
pub mod Client
pub mod Server
use ag_fs.Base.{
  ℕ, suc, ◌+◌, ◌^◌, ◌<◌, List, [], ◌∷◌, ◌++◌, length, All, some, none, true, false, Bool, ℤ, pos,
  negsuc, neg,
}
use ag_fs.Monad.{M, pure, ◌>>=◌}
use ag_fs.Words.Laws.{IsInt64}
use ag_fs.Os.{Os}
use ag_fs.Os.Stream.{Ends, Quiet, Errno}
use ag_fs.Constants.{cmd_heartbeat, enotdir}
use ag_fs.Stat.{Stat, zero_stat, FitsStat, sent_part}
use ag_fs.Text.{Text}
use ag_fs.Io.Frames.{IsText, cmd_frame, error_frame}
use ag_fs.Connection.{
  ServerConnection, getattr, access, open_path, readdir, read_file, write_file, heartbeat, stop,
}
use ag_fs.Connection.Connect.{Network, connect}
use ag_fs.Connection.Calls.{sent_entries, IsEntry}
use ag_fs.Connection.Writing.{written_of}
use ag_fs.Server.{Files, o_rdonly, o_wronly}
use ag_fs.Server.Handlers.Readdir.{StatsOf, names_of}
use ag_fs.Server.Transfers.Reading.{Pieces}
use ag_fs.Server.Transfers.Writing.{Stored}
use ag_fs.Protocol.{
  getattr_request, getattr_reply, access_request, open_request, readdir_request, readdir_reply,
  read_request, read_reply, open_write_request, write_request, write_reply,
}
use ag_fs.Protocol.Opening.{OpenAnswer}

pub data Call : Type 0 where
  getattr_call : Text → Call
  access_call : Text → ℕ → Call
  open_call : Text → ℕ → Call
  readdir_call : Text → Call
  read_call : Text → ℕ → ℕ → Call
  write_call : Text → List ℕ → ℕ → Call
  heartbeat_call : Call

pub data Result : Type 0 where
  got_stat : Stat → ℤ → Result
  got_code : ℤ → Result
  got_entries : List (Text × Stat) → ℤ → Result
  got_bytes : List ℕ → ℤ → Result
  got_count : ℕ → ℤ → Result

module _ (os : Os) where
  -- One call, with the object after it.
  unfoldable pub perform : ServerConnection → Call → M os.State (Result × ServerConnection)
  perform c (getattr_call path) = do (st, error) ← getattr os c path; pure (got_stat st error, c)
  perform c (access_call path mask) = do error ← access os c path mask; pure (got_code error, c)
  perform c (open_call path flags) = do error ← open_path os c path flags; pure (got_code error, c)
  perform c (readdir_call path) = do
    (entries, error) ← readdir os c path
    pure (got_entries entries error, c)
  perform c (read_call path size offset) = do
    (bytes, error) ← read_file os c path size offset
    pure (got_bytes bytes error, c)
  perform c (write_call path bytes offset) = do
    (total, error) ← write_file os c path (length bytes) offset bytes
    pure (got_count total error, c)
  perform c heartbeat_call = do (error, c') ← heartbeat os c; pure (got_code error, c')

  unfoldable pub perform_all :
      ServerConnection → List Call → M os.State (List Result × ServerConnection)
  perform_all c [] = pure ([], c)
  perform_all c (call ∷ calls) = do
    (result, c') ← perform c call
    (results, c'') ← perform_all c' calls
    pure (result ∷ results, c'')

  -- The whole session: the results of the calls, the result of stop, and the object in the end.
  unfoldable pub session :
      Network os → ServerConnection → List Call → M os.State (List Result × (ℤ × ServerConnection))
  session net c calls = do
    c' ← connect os net c
    (results, c'') ← perform_all c' calls
    stopped ← stop os c''
    pure (results, stopped)
