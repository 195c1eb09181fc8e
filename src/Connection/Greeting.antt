-- ===== src/Connection/Greeting.antt =====
-- ServerConnection::connect on the stream: the key is sent, and the server's answer decides.
use ag_fs.Base.{ℕ, ◌^◌, ◌<◌, ◌≡◌, false, true, ◌==◌, [], pos, negsuc, arith}
use ag_fs.Os.{Os}
use ag_fs.Os.Stream.{Stream, Talks, Talks-pure, Talks-bind, Talks-last, Talks-then_read, Quiet}
use ag_fs.Constants.{cmd_stop, cmd_accept, cmd_none}
use ag_fs.Io.Frames.{cmd_frame, string_frame}
use ag_fs.Io.Send.{agfs_write_cmd-Talks, agfs_write_string-Talks}
use ag_fs.Io.Receive.{agfs_read_cmd-Talks}
use ag_fs.Connection.{ServerConnection, connected, stop}
use ag_fs.Connection.Connect.{Network, connect, dns_lookup, client_block_sec, client_block_usec}

module _ (os : Os) (net : Network os) (c : ServerConnection) (n : ℕ) {W : Type 0}
    (t : Stream os (pos n) W) (w : W)
    (found : Quiet t.ends (dns_lookup os net c c.port) w (pos n) w)
    (timed : Quiet t.ends (net.set_timeout (pos n) client_block_sec client_block_usec) w tt w)
    (blocking : Quiet t.ends (net.set_blocking (pos n)) w tt w) where
  pub connect-Talks_accepted :
      Talks t.ends
        (connect os net c)
        w
        (cmd_frame cmd_accept)
        (string_frame c.key)
        (record c { socket = pos n })
        w
  unfolding connect
  connect-Talks_accepted = Talks-bind _ found (
      Talks-bind _ timed (
        Talks-bind _ blocking (
          Talks-then_read _ (agfs_write_string-Talks os t w c.key) (
            Talks-last _ (agfs_read_cmd-Talks os t w cmd_accept cmd_none (omega arith))
              (Talks-pure _)))))

  pub connect-Talks_refused :
      (cmd : ℕ)
      → cmd < 2 ^ 16
      → (cmd == cmd_accept) ≡ false
      → Talks t.ends
          (connect os net c)
          w
          (cmd_frame cmd)
          (string_frame c.key)
          (record c { socket = negsuc 0 })
          w
  unfolding connect
  connect-Talks_refused cmd lt other = Talks-bind _ found (
      Talks-bind _ timed (
        Talks-bind _ blocking (
          Talks-then_read _ (agfs_write_string-Talks os t w c.key) (
            Talks-last _ (agfs_read_cmd-Talks os t w cmd cmd_none lt)
              (rw other (Talks-bind _ (t.close_succeeds w) (Talks-pure _)))))))

pub stop-Talks :
    (os : Os) (c : ServerConnection) (n : ℕ) {W : Type 0} (t : Stream os (pos n) W) (w : W)
    → Talks t.ends
        (stop os (record c { socket = pos n }))
        w
        []
        (cmd_frame cmd_stop)
        (pos 0, record c { socket = negsuc 0; closed = true })
        w
unfolding stop connected
stop-Talks os c n t w =
    Talks-last _ (agfs_write_cmd-Talks os t w cmd_stop)
      (Talks-bind _ (t.close_succeeds w) (Talks-pure _))
