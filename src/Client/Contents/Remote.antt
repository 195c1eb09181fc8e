-- ===== src/Client/Contents/Remote.antt =====
-- agfs_read and agfs_write with the handle that agfs_open made, from FUSE to the server's file.
use ag_fs.Base.{
  ℕ, ◌%◌, ◌^◌, ◌<◌, ◌≤◌, ◌≡◌, refl, true, List, [], ◌++◌, length, some, ℤ, pos, negsuc, is_neg,
  arith, if◌then◌else◌,
}
use ag_fs.Words.Laws.{IsInt64}
use ag_fs.Monad.{M, pure}
use ag_fs.Os.{Os}
use ag_fs.Os.Stream.{Stream, Reached, Talks, Talks-pure, Talks-last, Quiet}
use ag_fs.SortedMap
use ag_fs.Io.Frames.{IsText}
use ag_fs.Connection.{ServerConnection, connected}
use ag_fs.Connection.Reading.{read_file-Talks}
use ag_fs.Connection.Writing.{write_file-Talks}
use ag_fs.Client.{Connections, FileHandle, signed_int, to_int}
use ag_fs.Client.Contents.{agfs_read, agfs_write}
use ag_fs.Server.{Files, ClientConnection, o_rdonly, o_wronly}
use ag_fs.Server.Transfers.Reading.{Pieces, Pieces-size, process_read-Talks}
use ag_fs.Server.Transfers.Writing.{Stored, process_write-Talks}
use ag_fs.Server.Commands.{command_round}
use ag_fs.Server.Commands.Rounds.{round_read, round_write}
use ag_fs.Protocol.{read_request, read_reply, write_request, write_reply}

-- What agfs_read makes of the result of a connection, and what agfs_write makes of it.
abbrev read_answer : {S : Type 0} → List ℕ × ℤ → M S (ℤ × List ℕ)
read_answer (bytes, error) =
    if is_neg error
    then pure (to_int error, [])
    else pure (signed_int (length bytes % 2 ^ 32), bytes)

abbrev write_answer : {S : Type 0} → ℕ × ℤ → M S ℤ
write_answer (total, error) =
    pure (if is_neg error then to_int error else signed_int (total % 2 ^ 32))

small_int : (n : ℕ) → n < 2 ^ 31 → signed_int (n % 2 ^ 32) ≡ pos n
small_int n lt = ground arith

module _ (os : Os) (connections : Connections) (handle : FileHandle) (c : ServerConnection)
    {W : Type 0} (t : Stream os c.socket W) (w : W)
    (found : SortedMap.find handle.server connections ≡ some c) (up : connected c ≡ true) where
  agfs_read-Talks :
      (size offset : ℕ) (bytes : List ℕ)
      → length bytes < 2 ^ 31
      → Talks t.ends
          (agfs_read os connections handle size offset)
          w
          (read_reply bytes)
          (read_request handle.file size offset)
          (pos (length bytes), bytes)
          w
  unfolding agfs_read
  agfs_read-Talks size offset bytes lt =
      rw (found, up)
        (Talks-last read_answer
          (read_file-Talks os c t w handle.file size offset bytes (omega arith))
          (rw (small_int (length bytes) lt) (Talks-pure _)))

  agfs_write-Talks :
      (bytes : List ℕ) (offset : ℕ) (result : ℤ)
      → IsInt64 result
      → Talks t.ends
          (agfs_write os connections handle bytes (length bytes) offset)
          w
          (write_reply result)
          (write_request handle.file bytes offset)
          (to_int result)
          w
  unfolding agfs_write
  agfs_write-Talks bytes offset (pos k) fits =
      rw (found, up)
        (Talks-last write_answer (write_file-Talks os c t w handle.file bytes offset (pos k) fits)
          (Talks-pure _))
  agfs_write-Talks bytes offset (negsuc e) fits =
      rw (found, up)
        (Talks-last write_answer
          (write_file-Talks os c t w handle.file bytes offset (negsuc e) fits) (Talks-pure _))

module _ (client host : Os) (files : Files host) (connections : Connections) (handle : FileHandle)
    (c : ServerConnection) (d : ClientConnection) {W V : Type 0} (t : Stream client c.socket W)
    (u : Stream host d.socket V) (s : client.State) (s' : host.State) (rest rest' : List ℕ)
    (text : IsText handle.file) (found : SortedMap.find handle.server connections ≡ some c)
    (up : connected c ≡ true) where
  -- A read of FUSE of fewer than 2 ^ 31 bytes, with a handle whose server is connected, where each
  -- end finds what the other writes, of a file that the server can open, and whose reads return
  -- pieces of what is asked for until the size is reached or the file ends: the server's loop ends,
  -- and FUSE gets exactly the bytes of these pieces, no more than it asked for, and their number;
  -- the server goes on.
  pub agfs_read_remote :
      {v₁ v₂ v' : V} (size offset n : ℕ) (code : ℤ) (out : List ℕ)
      → size < 2 ^ 31
      → offset < 2 ^ 64
      → Quiet u.ends
          (files.open_file (files.join d.mount_point handle.file) o_rdonly)
          (u.ends.view s')
          (pos n)
          v₁
      → Quiet u.ends (files.lseek (pos n) offset) v₁ code v₂
      → Pieces host u.ends (pos n) size [] v₂ out v'
      → t.ends.inbox s ≡ read_reply out ++ rest
      → u.ends.inbox s' ≡ read_request handle.file size offset ++ rest'
      → Reached t.ends
          (agfs_read client connections handle size offset)
          s
          rest
          (read_request handle.file size offset)
          (pos (length out), out)
          (t.ends.view s)
        × Reached u.ends (command_round host files d) s' rest' (read_reply out) (true, d) v'
        × (length out ≤ size)
  agfs_read_remote size offset n code out fits fits' opened sought pieces hc hs =
      let few : length out ≤ size = Pieces-size host u.ends (pos n) size pieces in
      (
        (agfs_read-Talks client connections handle c t (t.ends.view s) found up size offset out
              (omega arith)).at
            s rest refl hc,
        (round_read host files d u (
              process_read-Talks host files d u handle.file text size offset n code out
                (omega arith) fits' opened sought pieces)).at
            s' rest' refl hs,
        few,
      )

  -- A write of FUSE, with a handle whose server is connected, over sockets that move all bytes they
  -- are asked to, where each end finds what the other writes, to a file that the server can open: the server offers the file exactly the bytes of
  -- FUSE, and FUSE gets, as an int, the number of bytes that the file took, or the server's -errno
  -- if the write to the file fails; the server goes on.
  pub agfs_write_remote :
      {v₁ v₂ v' : V} (bytes : List ℕ) (offset n : ℕ) (code result : ℤ)
      → length bytes < 2 ^ 63
      → offset < 2 ^ 64
      → IsInt64 result
      → Quiet u.ends
          (files.open_file (files.join d.mount_point handle.file) o_wronly)
          (u.ends.view s')
          (pos n)
          v₁
      → Quiet u.ends (files.lseek (pos n) offset) v₁ code v₂
      → Stored host u.ends (pos n) bytes v₂ result v'
      → t.ends.inbox s ≡ write_reply result ++ rest
      → u.ends.inbox s' ≡ write_request handle.file bytes offset ++ rest'
      → Reached t.ends
          (agfs_write client connections handle bytes (length bytes) offset)
          s
          rest
          (write_request handle.file bytes offset)
          (to_int result)
          (t.ends.view s)
        × Reached u.ends (command_round host files d) s' rest' (write_reply result) (true, d) v'
  agfs_write_remote bytes offset n code result fits fits' small opened sought stored hc hs = (
    (agfs_write-Talks client connections handle c t (t.ends.view s) found up bytes offset result
          small).at
        s rest refl hc,
    (round_write host files d u (
          process_write-Talks host files d u handle.file text bytes offset n code result fits fits'
            opened sought stored)).at
        s' rest' refl hs,
  )
