-- ===== src/Protocol/Writing.antt =====
-- A write call of the client against a round of the server. `s` is the client's machine and `s'`
-- the server's.
use ag_fs.Base.{ℕ, ◌^◌, ◌<◌, ◌≡◌, refl, true, List, ◌++◌, length, ℤ, pos}
use ag_fs.Os.{Os}
use ag_fs.Os.Stream.{Stream, Reached, Quiet}
use ag_fs.Words.Laws.{IsInt64}
use ag_fs.Text.{Text}
use ag_fs.Io.Frames.{IsText}
use ag_fs.Connection.{ServerConnection, write_file}
use ag_fs.Connection.Writing.{written_of, write_file-Talks}
use ag_fs.Server.{Files, ClientConnection, o_wronly}
use ag_fs.Server.Transfers.Writing.{Stored, process_write-Talks}
use ag_fs.Server.Commands.{command_round}
use ag_fs.Server.Commands.Rounds.{round_write}
use ag_fs.Protocol.{write_request, write_reply}

module _ (client host : Os) (files : Files host) (c : ServerConnection) (d : ClientConnection)
    {W V : Type 0} (t : Stream client c.socket W) (u : Stream host d.socket V) (s : client.State)
    (s' : host.State) (rest rest' : List ℕ) (path : Text) (text : IsText path) where
  -- A write of the client, where each end finds what the other writes, to a file that the server
  -- can open: the server offers the file exactly the client's bytes, the client has the number of
  -- bytes that the file took, or the server's -errno if the write to the file fails, and the server
  -- goes on.
  pub write_remote :
      {v₁ v₂ v' : V} (bytes : List ℕ) (offset n : ℕ) (code result : ℤ)
      → length bytes < 2 ^ 63
      → offset < 2 ^ 64
      → IsInt64 result
      → Quiet u.ends
          (files.open_file (files.join d.mount_point path) o_wronly)
          (u.ends.view s')
          (pos n)
          v₁
      → Quiet u.ends (files.lseek (pos n) offset) v₁ code v₂
      → Stored host u.ends (pos n) bytes v₂ result v'
      → t.ends.inbox s ≡ write_reply result ++ rest
      → u.ends.inbox s' ≡ write_request path bytes offset ++ rest'
      → Reached t.ends
          (write_file client c path (length bytes) offset bytes)
          s
          rest
          (write_request path bytes offset)
          (written_of (length bytes) result)
          (t.ends.view s)
        × Reached u.ends (command_round host files d) s' rest' (write_reply result) (true, d) v'
  write_remote bytes offset n code result fits fits' small opened sought stored hc hs = (
    (write_file-Talks client c t (t.ends.view s) path bytes offset result small).at s rest refl hc,
    (round_write host files d u (
          process_write-Talks host files d u path text bytes offset n code result fits fits' opened
            sought stored)).at
        s' rest' refl hs,
  )
