-- ===== src/Connection/Reading.antt =====
-- ServerConnection::readFile on the stream.
use ag_fs.Base.{
  ℕ, zero, suc, ◌^◌, ◌<◌, ◌≡◌, refl, sym, ap, List, [], length, replicate, pos, negsuc, min_ℤ,
  arith,
}
use ag_fs.Os.{Os}
use ag_fs.Os.Stream.{
  Stream, Talks, Talks-pure, Talks-bind, Talks-last, Talks-then_read, Talks-value,
}
use ag_fs.Constants.{cmd_read}
use ag_fs.Words.Laws.{IsInt64}
use ag_fs.Io.Frames.{error_frame}
use ag_fs.Text.{Text}
use ag_fs.Io.Send.{agfs_write_cmd-Talks, agfs_write_string-Talks, agfs_write_size-Talks}
use ag_fs.Io.Receive.{agfs_read_error-Talks, agfs_read_size-Talks, read_object-Talks}
use ag_fs.Protocol.{read_request, read_reply}
use ag_fs.Connection.{ServerConnection, read_file}

length-replicate : (n a : ℕ) → length (replicate n a) ≡ n
length-replicate zero a = refl
length-replicate (suc n) a = ap suc (length-replicate n a)

min_self : (n : ℕ) → min_ℤ (pos n) (pos n) ≡ pos n
min_self n = ap pos (omega arith)

module _ (os : Os) (c : ServerConnection) {W : Type 0} (t : Stream os c.socket W) (w : W)
    (path : Text) where
  pub read_file-Talks :
      (size offset : ℕ) (bytes : List ℕ)
      → length bytes < 2 ^ 63
      → Talks t.ends
          (read_file os c path size offset)
          w
          (read_reply bytes)
          (read_request path size offset)
          (bytes, pos (length bytes))
          w
  unfolding read_file
  read_file-Talks size offset bytes fits = Talks-bind _ (agfs_write_cmd-Talks os t w cmd_read) (
      Talks-bind _ (agfs_write_string-Talks os t w path) (
        Talks-bind _ (agfs_write_size-Talks os t w size) (
          Talks-then_read _ (agfs_write_size-Talks os t w offset) (
            Talks-bind _ (agfs_read_error-Talks os t w (pos (length bytes)) (pos 0) (omega arith)) (
              Talks-bind _ (agfs_read_size-Talks os t w (length bytes) 0 (omega arith)) (
                Talks-value (min_self (length bytes)) (
                  Talks-last _
                    (read_object-Talks os t w bytes (replicate (length bytes) 0)
                      (sym (length-replicate (length bytes) 0)))
                    (Talks-pure _))))))))

  pub read_file-Talks_failed :
      (size offset n : ℕ)
      → IsInt64 (negsuc n)
      → Talks t.ends
          (read_file os c path size offset)
          w
          (error_frame (negsuc n))
          (read_request path size offset)
          ([], negsuc n)
          w
  unfolding read_file
  read_file-Talks_failed size offset n fits = Talks-bind _ (agfs_write_cmd-Talks os t w cmd_read) (
      Talks-bind _ (agfs_write_string-Talks os t w path) (
        Talks-bind _ (agfs_write_size-Talks os t w size) (
          Talks-then_read _ (agfs_write_size-Talks os t w offset)
            (Talks-last _ (agfs_read_error-Talks os t w (negsuc n) (pos 0) fits) (Talks-pure _)))))
