-- ===== src/Protocol/Session/Server.antt =====
-- The server's end of the calls of a session.
use ag_fs.Base.{
  ℕ, zero, suc, ◌<◌, refl, sym, append_assoc, append-nil, List, ◌++◌, length, some, negsuc, true,
  arith,
}
use ag_fs.Os.{Os}
use ag_fs.Os.Stream.{Stream, Talks, Talks-pure, Talks-cast, Talks-bind, Talks-last}
use ag_fs.Constants.{cmd_stop, cmd_accept}
use ag_fs.Io.Send.{agfs_write_cmd-Talks}
use ag_fs.Io.Frames.{cmd_frame}
use ag_fs.Server.{Files, ClientConnection}
use ag_fs.Server.Handlers.Answers.{
  process_get_attr-Talks, process_get_attr-Talks_missing, process_access-Talks, process_open-Talks,
  process_open-Talks_failed,
}
use ag_fs.Server.Handlers.Readdir.{process_readdir-Talks_walks, process_readdir-Talks_failed}
use ag_fs.Server.Transfers.Reading.{
  process_read-Talks, process_read-Talks_aborted, process_read-Talks_unopened,
}
use ag_fs.Server.Transfers.Writing.{process_write-Talks, process_write-Talks_unopened}
use ag_fs.Server.Commands.{command_round, command_loop, process_commands}
use ag_fs.Server.Commands.Rounds.{
  round_getattr, round_access, round_open, round_readdir, round_read, round_write, round_heartbeat,
  round_stop,
}
use ag_fs.Protocol.Beat.{process_heartbeat-Talks}
use ag_fs.Protocol.Opening.{was_opened, was_refused}
use ag_fs.Protocol.Session.{Call, Result}
use ag_fs.Protocol.Session.Served.{
  Served, AllServed, over, next, found, missing, accessed, opened, listed, unlisted, read_out,
  broken_off, written, unread, unwritten, beaten,
}

module _ (host : Os) (files : Files host) (d : ClientConnection) {V : Type 0}
    (u : Stream host d.socket V) where
  -- The server reads the request, makes the calls of its system, and answers.
  command_round-Served :
      {v v' : V} {call : Call} {request reply : List ℕ} {result : Result}
      → Served host files d.mount_point u.ends v call request reply result v'
      → Talks u.ends (command_round host files d) v request reply (true, d) v'
  command_round-Served (found {path = path} {st = st} text fits stated) =
      round_getattr host files d u (process_get_attr-Talks host files d u path text st stated)
  command_round-Served (missing {path = path} {n = n} text fits stated errno) =
      round_getattr host files d u
        (process_get_attr-Talks_missing host files d u path text n stated errno)
  command_round-Served (accessed {path = path} {mask = mask} {err = err} text lt fits allowed) =
      round_access host files d u
        (process_access-Talks host files d u path text mask err lt allowed)
  command_round-Served
        (opened {path = path} {mask = mask} {code = code} text lt got (was_opened {fd = fd}) shut) =
      round_open host files d u
        (process_open-Talks host files d u path text mask fd code lt got shut)
  command_round-Served
        (opened {path = path} {mask = mask} {code = code} text lt got
          (was_refused {k = k} {n = n} fits errno)
          shut) =
      round_open host files d u
        (process_open-Talks_failed host files d u path text mask k n code lt got errno shut)
  command_round-Served
        (listed {v = v} {path = path} counted entries text fits lt same there directory names names'
          stats) =
      round_readdir host files d u (
        rw same at (
          process_readdir-Talks_walks host files d u v path text counted entries there directory
            names names' stats))
  command_round-Served (unlisted {v = v} {path = path} {there = is_there} text there directory) =
      round_readdir host files d u
        (process_readdir-Talks_failed host files d u v path text is_there there directory)
  command_round-Served
        (read_out {path = path} {size = size} {offset = offset} {n = n} {code = code} {out = out}
          text fits fits' got sought pieces) =
      round_read host files d u (
        process_read-Talks host files d u path text size offset n code out fits fits' got sought
          pieces)
  command_round-Served
        (broken_off {path = path} {size = size} {offset = offset} {n = n} {code = code} text lt lt'
          got sought broken) =
      round_read host files d u (
        process_read-Talks_aborted host files d u path text size offset n code lt lt' got sought
          broken)
  command_round-Served
        (written {path = path} {bytes = bytes} {offset = offset} {n = n} {code = code}
          {result = result} text fits fits' small got sought stored) =
      round_write host files d u (
        process_write-Talks host files d u path text bytes offset n code result fits fits' got
          sought stored)
  command_round-Served
        (unread {path = path} {size = size} {offset = offset} {k = k} {n = n} text lt lt' fits
          denied errno) =
      round_read host files d u
        (process_read-Talks_unopened host files d u path text size offset k n lt lt' denied errno)
  command_round-Served (unwritten {path = path} {k = k} {n = n} text fits denied errno) =
      round_write host files d u
        (process_write-Talks_unopened host files d u path text k n denied errno)
  command_round-Served (beaten {v = v}) =
      Talks-cast (append-nil _) refl
        (round_heartbeat host files d u (process_heartbeat-Talks host files d u v))

  -- The loop serves all calls, and ends with the command to stop.
  pub command_loop-AllServed :
      (fuel : ℕ) {v v' : V} {calls : List Call} {requests replies : List ℕ} {results : List Result}
      → length calls < fuel
      → AllServed host files d.mount_point u.ends v calls requests replies results v'
      → Talks u.ends
          (command_loop host files fuel d)
          v
          (requests ++ cmd_frame cmd_stop)
          replies
          (some (record d { socket = negsuc 0 }))
          v'
  unfolding command_loop
  command_loop-AllServed zero enough served = absurd (omega arith)
  command_loop-AllServed (suc fuel) enough (over {v = v}) =
      Talks-last _ (round_stop host files d u v) (Talks-pure _)
  command_loop-AllServed (suc fuel) enough
        (next {request = request} {requests = requests} {reply = reply} {replies = replies} one
          more) =
      Talks-cast (sym (append_assoc request requests (cmd_frame cmd_stop))) refl
        (Talks-bind _ (command_round-Served one) (command_loop-AllServed fuel (omega arith) more))

  pub process_commands-AllServed :
      {v v' : V} {calls : List Call} {requests replies : List ℕ} {results : List Result} (fuel : ℕ)
      → length calls < fuel
      → AllServed host files d.mount_point u.ends v calls requests replies results v'
      → Talks u.ends
          (process_commands host files fuel d)
          v
          (requests ++ cmd_frame cmd_stop)
          (cmd_frame cmd_accept ++ replies)
          (some (record d { socket = negsuc 0 }))
          v'
  unfolding process_commands
  process_commands-AllServed {v} fuel enough served =
      Talks-bind _ (agfs_write_cmd-Talks host u v cmd_accept)
        (command_loop-AllServed fuel enough served)
