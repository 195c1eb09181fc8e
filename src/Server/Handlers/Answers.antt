-- ===== src/Server/Handlers/Answers.antt =====
-- What the handlers make of a request on the stream, and what they answer.
use ag_fs.Base.{ℕ, suc, ◌^◌, ◌<◌, refl, ap, [], ◌++◌, none, some, ℤ, pos, negsuc, neg}
use ag_fs.Os.{Os}
use ag_fs.Os.Stream.{
  Stream, Talks, Talks-pure, Talks-bind, Talks-last, Talks-then_write, Talks-gets, Talks-gets_known,
  Quiet, Errno,
}
use ag_fs.Stat.{Stat, zero_stat}
use ag_fs.Text.{Text}
use ag_fs.Io.Frames.{IsText, error_frame, mask_frame, string_frame}
use ag_fs.Io.Send.{agfs_write_error-Talks, agfs_write_stat-Talks}
use ag_fs.Io.Receive.{agfs_read_mask-Talks, agfs_read_string-Talks}
use ag_fs.Protocol.{getattr_reply}
use ag_fs.Server.{Files, ClientConnection, read_file_path}
use ag_fs.Server.Handlers.{process_get_attr, process_access, process_open}

module _ (os : Os) (files : Files os) (c : ClientConnection) {V : Type 0} (t : Stream os c.socket V)
    (path : Text) (text : IsText path) where
  pub read_file_path-Talks :
      (v : V)
      → Talks t.ends
          (read_file_path os files c)
          v
          (string_frame path)
          []
          (files.join c.mount_point path)
          v
  unfolding read_file_path
  read_file_path-Talks v = Talks-last _ (agfs_read_string-Talks os t v path [] text) (Talks-pure _)

  module _ {v v' : V} where
    pub process_get_attr-Talks :
        (st : Stat)
        → Quiet t.ends (files.lstat (files.join c.mount_point path)) v (some st) v'
        → Talks t.ends (process_get_attr os files c) v (string_frame path) (getattr_reply st) tt v'
    unfolding process_get_attr
    process_get_attr-Talks st found = Talks-then_write _ (read_file_path-Talks v) (
        Talks-bind _ found (
          Talks-bind _ (Talks-pure _) (
            Talks-bind _ (agfs_write_error-Talks os t v' (pos 0))
              (Talks-last _ (agfs_write_stat-Talks os t v' st) (Talks-pure _)))))

    pub process_get_attr-Talks_missing :
        (n : ℕ)
        → Quiet t.ends (files.lstat (files.join c.mount_point path)) v none v'
        → Errno os t.ends v' (suc n)
        → Talks t.ends
            (process_get_attr os files c)
            v
            (string_frame path)
            (error_frame (negsuc n))
            tt
            v'
    unfolding process_get_attr
    process_get_attr-Talks_missing n missing errno = Talks-then_write _ (read_file_path-Talks v) (
        Talks-bind _ missing (
          Talks-gets_known _ _ (λ s e. ap (λ k. (neg k, zero_stat)) (errno s e))
            (Talks-last _ (agfs_write_error-Talks os t v' (negsuc n)) (Talks-pure _))))

    pub process_access-Talks :
        (mask : ℕ) (err : ℤ)
        → mask < 2 ^ 32
        → Quiet t.ends (files.access (files.join c.mount_point path) mask) v err v'
        → Talks t.ends
            (process_access os files c)
            v
            (string_frame path ++ mask_frame mask)
            (error_frame err)
            tt
            v'
    unfolding process_access
    process_access-Talks mask err lt allowed = Talks-bind _ (read_file_path-Talks v) (
        Talks-gets _ (λ _. Unit {0}) _ (λ s _. tt)
          λ old _. Talks-then_write _ (agfs_read_mask-Talks os t v mask old lt) (
            Talks-bind _ allowed
              (Talks-last _ (agfs_write_error-Talks os t v' err) (Talks-pure _))))

    -- The file is there: the answer is 0, and the descriptor is closed again.
    pub process_open-Talks :
        {v'' : V} (mask fd : ℕ) (code : ℤ)
        → mask < 2 ^ 32
        → Quiet t.ends (files.open_file (files.join c.mount_point path) mask) v (pos fd) v'
        → Quiet t.ends (os.close (pos fd)) v' code v''
        → Talks t.ends
            (process_open os files c)
            v
            (string_frame path ++ mask_frame mask)
            (error_frame (pos 0))
            tt
            v''
    unfolding process_open
    process_open-Talks {v''} mask fd code lt opened shut = Talks-bind _ (read_file_path-Talks v) (
        Talks-then_write _ (agfs_read_mask-Talks os t v mask 0 lt) (
          Talks-bind _ opened (
            Talks-gets_known _ _ (λ s e. refl)
              (Talks-bind _ shut
                (Talks-last _ (agfs_write_error-Talks os t v'' (pos 0)) (Talks-pure _))))))

    -- The file cannot be opened: the answer is the error of open, and -1 is closed.
    pub process_open-Talks_failed :
        {v'' : V} (mask k n : ℕ) (code : ℤ)
        → mask < 2 ^ 32
        → Quiet t.ends (files.open_file (files.join c.mount_point path) mask) v (negsuc k) v'
        → Errno os t.ends v' (suc n)
        → Quiet t.ends (os.close (negsuc k)) v' code v''
        → Talks t.ends
            (process_open os files c)
            v
            (string_frame path ++ mask_frame mask)
            (error_frame (negsuc n))
            tt
            v''
    unfolding process_open
    process_open-Talks_failed {v''} mask k n code lt opened errno shut =
        Talks-bind _ (read_file_path-Talks v) (
          Talks-then_write _ (agfs_read_mask-Talks os t v mask 0 lt) (
            Talks-bind _ opened (
              Talks-gets_known _ _ (λ s e. ap neg (errno s e))
                (Talks-bind _ shut
                  (Talks-last _ (agfs_write_error-Talks os t v'' (negsuc n)) (Talks-pure _))))))
