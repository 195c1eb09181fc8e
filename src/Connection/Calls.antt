-- ===== src/Connection/Calls.antt =====
-- What the calls of a client put on the stream, and what they make of the answers.
use ag_fs.Base.{ℕ, ◌^◌, ◌<◌, List, [], ◌∷◌, length, All, map, ℤ, pos, negsuc, arith}
use ag_fs.Words.Laws.{IsInt64}
use ag_fs.Os.{Os}
use ag_fs.Os.Stream.{Stream, Talks, Talks-pure, Talks-bind, Talks-last, Talks-then_read, Talks-gets}
use ag_fs.Constants.{cmd_getattr, cmd_access, cmd_readdir, cmd_open}
use ag_fs.Stat.{Stat, zero_stat, FitsStat, sent_part}
use ag_fs.Text.{Text}
use ag_fs.Io.Frames.{IsText, error_frame}
use ag_fs.Io.Send.{agfs_write_cmd-Talks, agfs_write_mask-Talks, agfs_write_string-Talks}
use ag_fs.Io.Receive.{
  agfs_read_size-Talks, agfs_read_error-Talks, agfs_read_string-Talks, agfs_read_stat-Talks,
}
use ag_fs.Connection.{ServerConnection, getattr, access, open_path, read_entries, readdir}
use ag_fs.Protocol.{
  getattr_request, getattr_reply, access_request, open_request, readdir_request, readdir_reply,
  entries_frame,
}

-- The entries of a directory as they arrive.
abbrev pub sent_entries : List (Text × Stat) → List (Text × Stat)
sent_entries = map (λ (name, st). (name, sent_part st))

abbrev pub IsEntry : Text × Stat → Type 0
IsEntry (name, st) = IsText name × FitsStat st

module _ (os : Os) (c : ServerConnection) {W : Type 0} (t : Stream os c.socket W) (w : W)
    (path : Text) where
  pub getattr-Talks :
      (st : Stat)
      → FitsStat st
      → Talks t.ends
          (getattr os c path)
          w
          (getattr_reply st)
          (getattr_request path)
          (sent_part st, pos 0)
          w
  unfolding getattr
  getattr-Talks st fits = Talks-bind _ (agfs_write_cmd-Talks os t w cmd_getattr) (
      Talks-then_read _ (agfs_write_string-Talks os t w path) (
        Talks-bind _ (agfs_read_error-Talks os t w (pos 0) (pos 0) (omega arith))
          (Talks-last _ (agfs_read_stat-Talks os t w st fits) (Talks-pure _))))

  pub getattr-Talks_failed :
      (n : ℕ)
      → IsInt64 (negsuc n)
      → Talks t.ends
          (getattr os c path)
          w
          (error_frame (negsuc n))
          (getattr_request path)
          (zero_stat, negsuc n)
          w
  unfolding getattr
  getattr-Talks_failed n fits = Talks-bind _ (agfs_write_cmd-Talks os t w cmd_getattr) (
      Talks-then_read _ (agfs_write_string-Talks os t w path)
        (Talks-last _ (agfs_read_error-Talks os t w (negsuc n) (pos 0) fits) (Talks-pure _)))

  pub access-Talks :
      (mask : ℕ) (err : ℤ)
      → IsInt64 err
      → Talks t.ends (access os c path mask) w (error_frame err) (access_request path mask) err w
  unfolding access
  access-Talks mask err fits = Talks-bind _ (agfs_write_cmd-Talks os t w cmd_access) (
      Talks-bind _ (agfs_write_string-Talks os t w path) (
        Talks-then_read _ (agfs_write_mask-Talks os t w mask) (
          Talks-gets _ (λ _. Unit {0}) _ (λ s _. tt)
            λ old _. Talks-last _ (agfs_read_error-Talks os t w err old fits) (Talks-pure _))))

  pub open_path-Talks :
      (flags : ℕ) (err : ℤ)
      → IsInt64 err
      → Talks t.ends (open_path os c path flags) w (error_frame err) (open_request path flags) err w
  unfolding open_path
  open_path-Talks flags err fits = Talks-bind _ (agfs_write_cmd-Talks os t w cmd_open) (
      Talks-bind _ (agfs_write_string-Talks os t w path) (
        Talks-then_read _ (agfs_write_mask-Talks os t w flags)
          (Talks-last _ (agfs_read_error-Talks os t w err (pos 0) fits) (Talks-pure _))))

  pub readdir-Talks_failed :
      (n : ℕ)
      → IsInt64 (negsuc n)
      → Talks t.ends
          (readdir os c path)
          w
          (error_frame (negsuc n))
          (readdir_request path)
          ([], negsuc n)
          w
  unfolding readdir
  readdir-Talks_failed n fits = Talks-bind _ (agfs_write_cmd-Talks os t w cmd_readdir) (
      Talks-then_read _ (agfs_write_string-Talks os t w path)
        (Talks-last _ (agfs_read_error-Talks os t w (negsuc n) (pos 0) fits) (Talks-pure _)))

  read_entries-Talks :
      (entries : List (Text × Stat))
      → All IsEntry entries
      → Talks t.ends
          (read_entries os c.socket (length entries))
          w
          (entries_frame entries)
          []
          (sent_entries entries)
          w
  unfolding read_entries
  read_entries-Talks [] fits = Talks-pure _
  read_entries-Talks ((name, st) ∷ entries) fits =
      Talks-bind _ (agfs_read_string-Talks os t w name [] fits.0.0) (
        Talks-bind _ (agfs_read_stat-Talks os t w st fits.0.1)
          (Talks-last _ (read_entries-Talks entries fits.1) (Talks-pure _)))

  pub readdir-Talks :
      (entries : List (Text × Stat))
      → All IsEntry entries
      → length entries < 2 ^ 64
      → Talks t.ends
          (readdir os c path)
          w
          (readdir_reply entries)
          (readdir_request path)
          (sent_entries entries, pos 0)
          w
  unfolding readdir
  readdir-Talks entries fits lt = Talks-bind _ (agfs_write_cmd-Talks os t w cmd_readdir) (
      Talks-then_read _ (agfs_write_string-Talks os t w path) (
        Talks-bind _ (agfs_read_error-Talks os t w (pos 0) (pos 0) (omega arith)) (
          Talks-bind _ (agfs_read_size-Talks os t w (length entries) 0 lt)
            (Talks-last _ (read_entries-Talks entries fits) (Talks-pure _)))))
