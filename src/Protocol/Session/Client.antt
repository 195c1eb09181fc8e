-- ===== src/Protocol/Session/Client.antt =====
-- The client's end of the calls of a session.
use ag_fs.Base.{ℕ, List, ◌++◌, pos, negsuc, true, arith}
use ag_fs.Os.{Os}
use ag_fs.Os.Stream.{
  Ends, Quiet, Stream, Talks, Talks-pure, Talks-bind, Talks-last, Talks-then_write,
}
use ag_fs.Constants.{cmd_stop, cmd_accept}
use ag_fs.Connection.Connect.{Network, dns_lookup, client_block_sec, client_block_usec}
use ag_fs.Connection.Greeting.{connect-Talks_accepted, stop-Talks}
use ag_fs.Text.{Text}
use ag_fs.Io.Frames.{cmd_frame, string_frame}
use ag_fs.Connection.{ServerConnection}
use ag_fs.Connection.Calls.{
  getattr-Talks, getattr-Talks_failed, access-Talks, open_path-Talks, readdir-Talks,
  readdir-Talks_failed,
}
use ag_fs.Connection.Reading.{read_file-Talks, read_file-Talks_failed}
use ag_fs.Connection.Writing.{write_file-Talks, write_file-Talks_failed}
use ag_fs.Server.{Files}
use ag_fs.Server.Transfers.Reading.{Pieces-size}
use ag_fs.Protocol.Beat.{heartbeat-Talks}
use ag_fs.Protocol.Opening.{was_opened, was_refused}
use ag_fs.Protocol.Session.{Call, Result, perform, perform_all, session}
use ag_fs.Protocol.Session.Served.{
  Served, AllServed, over, next, found, missing, accessed, opened, listed, unlisted, read_out,
  broken_off, written, unread, unwritten, beaten,
}

module _ (client host : Os) (files : Files host) (c : ServerConnection) (mount : Text) {V : Type 0}
    (E : Ends host.State V) {W : Type 0} (t : Stream client c.socket W) (w : W) where
  -- The client makes of the server's answer what the relation says.
  perform-Talks :
      {v v' : V} {call : Call} {request reply : List ℕ} {result : Result}
      → Served host files mount E v call request reply result v'
      → Talks t.ends (perform client c call) w reply request (result, c) w
  unfolding perform
  perform-Talks (found {path = path} {st = st} text fits stated) =
      Talks-last _ (getattr-Talks client c t w path st fits) (Talks-pure _)
  perform-Talks (missing {path = path} {n = n} text fits stated errno) =
      Talks-last _ (getattr-Talks_failed client c t w path n fits) (Talks-pure _)
  perform-Talks (accessed {path = path} {mask = mask} {err = err} text lt fits allowed) =
      Talks-last _ (access-Talks client c t w path mask err fits) (Talks-pure _)
  perform-Talks (opened {path = path} {mask = mask} text lt got was_opened shut) =
      Talks-last _ (open_path-Talks client c t w path mask (pos 0) (omega arith)) (Talks-pure _)
  perform-Talks
        (opened {path = path} {mask = mask} text lt got (was_refused {n = n} fits errno) shut) =
      Talks-last _ (open_path-Talks client c t w path mask (negsuc n) (omega arith)) (Talks-pure _)
  perform-Talks
        (listed {path = path} counted entries text fits lt same there directory names names'
          stats) =
      Talks-last _ (readdir-Talks client c t w path entries fits lt) (Talks-pure _)
  perform-Talks (unlisted {path = path} text there directory) =
      Talks-last _ (readdir-Talks_failed client c t w path 19 (omega arith)) (Talks-pure _)
  perform-Talks
        (read_out {path = path} {size = size} {offset = offset} {n = n} {out = out} text fits fits'
          got sought pieces) =
      Talks-last _
        (read_file-Talks client c t w path size offset out
          (omega (arith, Pieces-size host E (pos n) size pieces)))
        (Talks-pure _)
  perform-Talks
        (broken_off {path = path} {size = size} {offset = offset} text lt lt' got sought broken) =
      Talks-last _ (read_file-Talks_failed client c t w path size offset 0 (omega arith))
        (Talks-pure _)
  perform-Talks
        (written {path = path} {bytes = bytes} {offset = offset} {result = result} text fits fits'
          small got sought stored) =
      Talks-last _ (write_file-Talks client c t w path bytes offset result small) (Talks-pure _)
  perform-Talks
        (unread {path = path} {size = size} {offset = offset} {n = n} text lt lt' fits denied
          errno) =
      Talks-last _ (read_file-Talks_failed client c t w path size offset n fits) (Talks-pure _)
  perform-Talks
        (unwritten {path = path} {bytes = bytes} {offset = offset} {n = n} text fits denied errno) =
      Talks-last _ (write_file-Talks_failed client c t w path bytes offset n fits) (Talks-pure _)
  perform-Talks beaten = Talks-last _ (heartbeat-Talks client c t w) (Talks-pure _)

  pub perform_all-Talks :
      {v v' : V} {calls : List Call} {requests replies : List ℕ} {results : List Result}
      → AllServed host files mount E v calls requests replies results v'
      → Talks t.ends (perform_all client c calls) w replies requests (results, c) w
  unfolding perform_all
  perform_all-Talks over = Talks-pure _
  perform_all-Talks (next one more) =
      Talks-bind _ (perform-Talks one) (Talks-last _ (perform_all-Talks more) (Talks-pure _))

-- The client connects, makes the calls and stops.
pub session-Talks :
    (client host : Os) (files : Files host) (mount : Text) {V : Type 0} (E : Ends host.State V)
    (net : Network client) (c : ServerConnection) (n : ℕ) {W : Type 0} (t : Stream client (pos n) W)
    (w : W) {v v' : V} {calls : List Call} {requests replies : List ℕ} {results : List Result}
    → Quiet t.ends (dns_lookup client net c c.port) w (pos n) w
    → Quiet t.ends (net.set_timeout (pos n) client_block_sec client_block_usec) w tt w
    → Quiet t.ends (net.set_blocking (pos n)) w tt w
    → AllServed host files mount E v calls requests replies results v'
    → Talks t.ends
        (session client net c calls)
        w
        (cmd_frame cmd_accept ++ replies)
        (string_frame c.key ++ (requests ++ cmd_frame cmd_stop))
        (results, (pos 0, record c { socket = negsuc 0; closed = true }))
        w
unfolding session
session-Talks client host files mount E net c n t w looked_up timed blocking served =
    Talks-bind _ (connect-Talks_accepted client net c n t w looked_up timed blocking) (
      Talks-then_write _
        (perform_all-Talks client host files (record c { socket = pos n }) mount E t w served)
        (Talks-last _ (stop-Talks client c n t w) (Talks-pure _)))
