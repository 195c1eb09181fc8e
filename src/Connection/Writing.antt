-- ===== src/Connection/Writing.antt =====
-- ServerConnection::writeFile on the stream.
use ag_fs.Base.{
  ℕ, zero, suc, ◌≡◌, refl, ==_refl, is_neg, nonzero, zero_plus, List, [], ◌∷◌, length, ℤ, pos,
  negsuc, arith, if◌then◌else◌,
}
use ag_fs.Monad.{M, pure, ◌>>=◌}
use ag_fs.Os.{Os}
use ag_fs.Os.Stream.{Stream, Talks, Talks-pure, Talks-bind, Talks-last, Talks-then_read}
use ag_fs.Words.Laws.{IsInt64}
use ag_fs.Text.{Text}
use ag_fs.Constants.{cmd_write}
use ag_fs.Io.Frames.{error_frame}
use ag_fs.Io.{agfs_read_error, agfs_read_size}
use ag_fs.Io.Send.{
  agfs_write_cmd-Talks, agfs_write_string-Talks, agfs_write_size-Talks, write_object-Talks,
}
use ag_fs.Io.Receive.{agfs_read_error-Talks, agfs_read_size-Talks}
use ag_fs.Protocol.{open_write_request, write_request, write_answer, write_reply}
use ag_fs.Connection.{ServerConnection, send_loop, write_file}

-- What writeFile returns for the server's answer to `size` bytes.
abbrev pub written_of : ℕ → ℤ → ℕ × ℤ
written_of size (pos k) = (k, pos k)
written_of size (negsuc e) = (size, negsuc e)

module _ (os : Os) (fd : ℤ) where
  pub send_loop_done :
      (fuel size : ℕ) (buf : List ℕ) (error : ℤ)
      → send_loop os fuel fd buf size size error ≡ pure (size, error)
  unfolding send_loop
  send_loop_done zero size buf error = refl
  send_loop_done (suc fuel) size buf error = rw (==_refl size) refl

module _ (os : Os) {fd : ℤ} {W : Type 0} (t : Stream os fd W) (w : W) where
  -- The buffer goes out in one write.
  send_loop-Talks :
      (buf : List ℕ)
      → Talks t.ends
          (send_loop os (length buf) fd buf (length buf) 0 (pos 0))
          w
          []
          buf
          (length buf, pos (length buf))
          w
  unfolding send_loop
  send_loop-Talks [] = Talks-pure _
  send_loop-Talks (b ∷ bs) = rw (nonzero (length bs)) (
      Talks-last _ (write_object-Talks os t w (b ∷ bs)) (
        rw
          (
            zero_plus (suc (length bs)),
            send_loop_done os fd (length bs) (suc (length bs)) (b ∷ bs) (pos (suc (length bs))),
          )
          (Talks-pure _)))

module _ (os : Os) (c : ServerConnection) {W : Type 0} (t : Stream os c.socket W) (w : W)
    (path : Text) where
  -- The part of writeFile that reads the answer.
  abbrev read_answer : ℕ → M os.State (ℕ × ℤ)
  read_answer total = do
    (_, result) ← agfs_read_error os c.socket (pos total)
    if is_neg result
        then pure (total, result)
        else do (_, total') ← agfs_read_size os c.socket total; pure (total', result)

  read_answer-Talks :
      (total : ℕ) (result : ℤ)
      → IsInt64 result
      → Talks t.ends (read_answer total) w (write_answer result) [] (written_of total result) w
  read_answer-Talks total (pos k) fits =
      Talks-bind _ (agfs_read_error-Talks os t w (pos k) (pos total) fits)
        (Talks-last _ (agfs_read_size-Talks os t w k total (omega arith)) (Talks-pure _))
  read_answer-Talks total (negsuc e) fits =
      Talks-last _ (agfs_read_error-Talks os t w (negsuc e) (pos total) fits) (Talks-pure _)

  pub write_file-Talks :
      (bytes : List ℕ) (offset : ℕ) (result : ℤ)
      → IsInt64 result
      → Talks t.ends
          (write_file os c path (length bytes) offset bytes)
          w
          (write_reply result)
          (write_request path bytes offset)
          (written_of (length bytes) result)
          w
  unfolding write_file
  write_file-Talks bytes offset result fits = Talks-bind _ (agfs_write_cmd-Talks os t w cmd_write) (
      Talks-bind _ (agfs_write_string-Talks os t w path) (
        Talks-bind _ (agfs_read_error-Talks os t w (pos 0) (pos 0) (omega arith)) (
          Talks-bind _ (agfs_write_size-Talks os t w (length bytes)) (
            Talks-bind _ (agfs_write_size-Talks os t w offset) (
              Talks-then_read _ (send_loop-Talks os t w bytes)
                (read_answer-Talks (length bytes) result fits))))))

  -- No data is sent where the server could not open the file.
  pub write_file-Talks_failed :
      (bytes : List ℕ) (offset n : ℕ)
      → IsInt64 (negsuc n)
      → Talks t.ends
          (write_file os c path (length bytes) offset bytes)
          w
          (error_frame (negsuc n))
          (open_write_request path)
          (0, negsuc n)
          w
  unfolding write_file
  write_file-Talks_failed bytes offset n fits =
      Talks-bind _ (agfs_write_cmd-Talks os t w cmd_write) (
        Talks-then_read _ (agfs_write_string-Talks os t w path)
          (Talks-last _ (agfs_read_error-Talks os t w (negsuc n) (pos 0) fits) (Talks-pure _)))
