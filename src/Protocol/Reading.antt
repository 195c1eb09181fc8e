-- ===== src/Protocol/Reading.antt =====
-- A read call of the client against a round of the server. `s` is the client's machine and `s'` the
-- server's.
use ag_fs.Base.{ℕ, ◌^◌, ◌<◌, ◌≤◌, ◌≡◌, refl, true, List, [], ◌++◌, length, ℤ, pos, arith}
use ag_fs.Os.{Os}
use ag_fs.Os.Stream.{Stream, Reached, Quiet}
use ag_fs.Text.{Text}
use ag_fs.Io.Frames.{IsText}
use ag_fs.Connection.{ServerConnection, read_file}
use ag_fs.Connection.Reading.{read_file-Talks}
use ag_fs.Server.{Files, ClientConnection, o_rdonly}
use ag_fs.Server.Transfers.Reading.{Pieces, Pieces-size, process_read-Talks}
use ag_fs.Server.Commands.{command_round}
use ag_fs.Server.Commands.Rounds.{round_read}
use ag_fs.Protocol.{read_request, read_reply}

module _ (client host : Os) (files : Files host) (c : ServerConnection) (d : ClientConnection)
    {W V : Type 0} (t : Stream client c.socket W) (u : Stream host d.socket V) (s : client.State)
    (s' : host.State) (rest rest' : List ℕ) (path : Text) (text : IsText path) where
  -- A read of the client, where each end finds what the other writes, of a file that the server can
  -- open, and whose reads return pieces of what is asked for until the size is reached or the file
  -- ends: the server's loop ends, the server sends the pieces as one answer, and the client has
  -- exactly these bytes, never more than it asked for, and their number; the server goes on.
  pub read_remote :
      {v₁ v₂ v' : V} (size offset n : ℕ) (code : ℤ) (out : List ℕ)
      → size < 2 ^ 63
      → offset < 2 ^ 64
      → Quiet u.ends
          (files.open_file (files.join d.mount_point path) o_rdonly)
          (u.ends.view s')
          (pos n)
          v₁
      → Quiet u.ends (files.lseek (pos n) offset) v₁ code v₂
      → Pieces host u.ends (pos n) size [] v₂ out v'
      → t.ends.inbox s ≡ read_reply out ++ rest
      → u.ends.inbox s' ≡ read_request path size offset ++ rest'
      → Reached t.ends
          (read_file client c path size offset)
          s
          rest
          (read_request path size offset)
          (out, pos (length out))
          (t.ends.view s)
        × Reached u.ends (command_round host files d) s' rest' (read_reply out) (true, d) v'
        × (length out ≤ size)
  read_remote size offset n code out fits fits' opened sought pieces hc hs = (
    (read_file-Talks client c t (t.ends.view s) path size offset out
          (omega (arith, Pieces-size host u.ends (pos n) size pieces))).at
        s rest refl hc,
    (round_read host files d u (
          process_read-Talks host files d u path text size offset n code out fits fits' opened
            sought pieces)).at
        s' rest' refl hs,
    Pieces-size host u.ends (pos n) size pieces,
  )
