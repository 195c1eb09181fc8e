-- ===== src/Io/Send.antt =====
-- What the write functions of src/agfsio.cpp put on a stream.
use ag_fs.Base.{ℕ, List, [], length, ℤ, pos}
use ag_fs.Words.{be_bytes, store, htobe, to_word}
use ag_fs.Words.Laws.{store-htobe, length-be_bytes}
use ag_fs.Os.{Os}
use ag_fs.Os.Stream.{Stream, Talks, Talks-pure, Talks-bind, Talks-last}
use ag_fs.Stat.{Stat}
use ag_fs.Io.{
  write_object, agfs_write_cmd, agfs_write_mask, agfs_write_size, agfs_write_error,
  agfs_write_string, agfs_write_stat,
}
use ag_fs.Io.Frames.{
  string_result, cmd_frame, mask_frame, size_frame, error_frame, string_frame, stat_frame,
}

module _ (os : Os) {fd : ℤ} {W : Type 0} (t : Stream os fd W) (w : W) where
  pub write_object-Talks :
      (bs : List ℕ) → Talks t.ends (write_object os fd bs) w [] bs (pos (length bs)) w
  unfolding write_object
  write_object-Talks bs = Talks-last _ (t.write_takes bs w) (Talks-pure _)

  write_word-Talks :
      (n v : ℕ)
      → Talks t.ends
          (write_object os fd (store os.endian n (htobe os.endian n v)))
          w
          []
          (be_bytes n v)
          (pos n)
          w
  write_word-Talks n v =
      rw store-htobe (rw (length-be_bytes n v) at (write_object-Talks (be_bytes n v)))

  pub agfs_write_cmd-Talks :
      (cmd : ℕ) → Talks t.ends (agfs_write_cmd os fd cmd) w [] (cmd_frame cmd) (pos 2) w
  unfolding agfs_write_cmd
  agfs_write_cmd-Talks cmd = write_word-Talks 2 cmd

  pub agfs_write_mask-Talks :
      (mask : ℕ) → Talks t.ends (agfs_write_mask os fd mask) w [] (mask_frame mask) (pos 4) w
  unfolding agfs_write_mask
  agfs_write_mask-Talks mask = write_word-Talks 4 mask

  pub agfs_write_size-Talks :
      (size : ℕ) → Talks t.ends (agfs_write_size os fd size) w [] (size_frame size) (pos 8) w
  unfolding agfs_write_size
  agfs_write_size-Talks size = write_word-Talks 8 size

  pub agfs_write_error-Talks :
      (err : ℤ) → Talks t.ends (agfs_write_error os fd err) w [] (error_frame err) (pos 8) w
  unfolding agfs_write_error
  agfs_write_error-Talks err = write_word-Talks 8 (to_word err)

  pub agfs_write_string-Talks :
      (str : List ℕ)
      → Talks t.ends
          (agfs_write_string os fd str)
          w
          []
          (string_frame str)
          (string_result (length str))
          w
  unfolding agfs_write_string
  agfs_write_string-Talks str =
      Talks-bind _ (agfs_write_size-Talks (length str))
        (Talks-last _ (write_object-Talks str) (Talks-pure _))

  pub agfs_write_stat-Talks :
      (st : Stat) → Talks t.ends (agfs_write_stat os fd st) w [] (stat_frame st) (pos 44) w
  unfolding agfs_write_stat
  agfs_write_stat-Talks st = Talks-bind _ (write_word-Talks 8 st.st_dev) (
      Talks-bind _ (write_word-Talks 4 st.st_mode) (
        Talks-bind _ (agfs_write_size-Talks st.st_size) (
          Talks-bind _ (write_word-Talks 8 st.st_atime) (
            Talks-bind _ (write_word-Talks 8 st.st_mtime)
              (Talks-last _ (write_word-Talks 8 st.st_ctime) (Talks-pure _))))))
