-- ===== src/Server/Transfers/Writing.antt =====
-- processWrite on the stream: the data is read from the socket and written to the file.
use ag_fs.Base.{
  ℕ, zero, suc, ◌-◌, ◌^◌, ◌<◌, ◌≡◌, refl, ap, is_neg, List, [], ◌∷◌, ◌++◌, length, some, Option,
  false, is_pos, ℤ, pos, negsuc, arith, if◌then◌else◌, append-nil, ==_refl, nonzero, zero_plus, neg,
}
use ag_fs.Monad.{M, pure, ◌>>=◌, ◌>>◌}
use ag_fs.Os.{Os}
use ag_fs.Os.Stream.{
  Ends, Stream, Talks, Talks-pure, Talks-bind, Talks-last, Talks-then_write, Talks-cast,
  Talks-gets_known, Quiet, Errno,
}
use ag_fs.Text.{Text}
use ag_fs.Io.{written, write_object, agfs_write_error, agfs_write_size}
use ag_fs.Io.Frames.{IsText, error_frame, string_frame, size_frame}
use ag_fs.Io.Send.{agfs_write_error-Talks, agfs_write_size-Talks}
use ag_fs.Io.Receive.{agfs_read_size-Talks}
use ag_fs.Protocol.{write_answer, write_reply}
use ag_fs.Server.{Files, ClientConnection, o_wronly}
use ag_fs.Server.Handlers.Answers.{read_file_path-Talks}
use ag_fs.Server.Transfers.{ended, returned, write_loop, process_write}

module _ (os : Os) {V : Type 0} (E : Ends os.State V) (fd : ℤ) where
  -- What becomes of the data: there is none; or one write takes some of it, and the file is closed;
  -- or the write fails or takes nothing, and the file stays open. The result is that of the write, or
  -- -errno.
  pub data Stored : List ℕ → V → ℤ → V → Type 0 where
    nothing : {v v' : V} {code : ℤ} → Quiet E (os.close fd) v code v' → Stored [] v (pos 0) v'
    taken :
        {b k : ℕ} {bs : List ℕ} {v v₁ v' : V} {code : ℤ}
        → Quiet E (os.write fd (b ∷ bs)) v (some (suc k)) v₁
        → Quiet E (os.close fd) v₁ code v'
        → Stored (b ∷ bs) v (pos (suc k)) v'
    refused :
        {b e : ℕ} {bs : List ℕ} {took : Option ℕ} {v v' : V}
        → Quiet E (os.write fd (b ∷ bs)) v took v'
        → is_pos (written took) ≡ false
        → Errno os E v' (suc e)
        → Stored (b ∷ bs) v (negsuc e) v'

module _ (os : Os) (files : Files os) where
  -- The loop is done when all is read.
  pub write_loop_done :
      (fuel : ℕ) (socket fd : ℤ) (size written : ℕ) (error : ℤ)
      → write_loop os files fuel socket fd size size written error ≡ pure (ended written error)
  unfolding write_loop
  write_loop_done zero socket fd size written error = refl
  write_loop_done (suc fuel) socket fd size written error = rw (==_refl size) refl

whole : (m : ℕ) → suc m - 0 ≡ suc m
whole m = omega arith

module _ (os : Os) (files : Files os) {V : Type 0} {socket : ℤ} (t : Stream os socket V) (fd : ℤ)
    {v v₁ : V} (b : ℕ) (bs : List ℕ) where
  -- All data comes in one read, and goes to the file in one write.
  write_loop-Talks_taken :
      (k : ℕ)
      → Quiet t.ends (os.write fd (b ∷ bs)) v (some (suc k)) v₁
      → Talks t.ends
          (write_loop os files (suc (length bs)) socket fd (suc (length bs)) 0 0 (pos 0))
          v
          (b ∷ bs)
          []
          (ended (suc k) (pos (suc k)))
          v₁
  unfolding write_loop write_object
  write_loop-Talks_taken k took =
      rw (nonzero (length bs), whole (length bs))
        (Talks-cast (append-nil _) refl (
          Talks-bind _ (t.read_waits (b ∷ bs) v) (
            Talks-bind _ (Talks-last _ took (Talks-pure _)) (
              rw
                (
                  zero_plus (suc (length bs)),
                  zero_plus (suc k),
                  write_loop_done os files (length bs) socket fd (suc (length bs)) (suc k)
                      (pos (suc k)),
                )
                (Talks-pure _)))))

  write_loop-Talks_refused :
      (e : ℕ) (took : Option ℕ)
      → Quiet t.ends (os.write fd (b ∷ bs)) v took v₁
      → is_pos (written took) ≡ false
      → Errno os t.ends v₁ (suc e)
      → Talks t.ends
          (write_loop os files (suc (length bs)) socket fd (suc (length bs)) 0 0 (pos 0))
          v
          (b ∷ bs)
          (error_frame (negsuc e))
          returned
          v₁
  unfolding write_loop write_object
  write_loop-Talks_refused e took failed none_taken errno =
      rw (nonzero (length bs), whole (length bs))
        (Talks-cast (append-nil _) refl (
          Talks-bind _ (t.read_waits (b ∷ bs) v) (
            Talks-bind _ (Talks-last _ failed (Talks-pure _)) (
              rw none_taken (
                Talks-gets_known _ _ (λ s w. ap neg (errno s w))
                  (Talks-last _ (agfs_write_error-Talks os t v₁ (negsuc e)) (Talks-pure _)))))))

module _ (os : Os) (files : Files os) (c : ClientConnection) {V : Type 0} (t : Stream os c.socket V)
    (path : Text) (text : IsText path) where
  -- The part of processWrite from its loop on.
  abbrev after_loop : ℕ → ℕ → M os.State (Unit {0})
  after_loop n size = write_loop os files size c.socket (pos n) size 0 0 (pos 0) >>= λ transfer.
      elim transfer [
        | returned ↦ pure tt
        | ended total_written last ↦ do
          os.close (pos n)
          agfs_write_error os c.socket last
          if is_neg last then pure tt else do agfs_write_size os c.socket total_written; pure tt
      ]

  after_loop-Talks :
      {v v' : V} {bytes : List ℕ} {result : ℤ} (n : ℕ)
      → Stored os t.ends (pos n) bytes v result v'
      → Talks t.ends (after_loop n (length bytes)) v bytes (write_answer result) tt v'
  unfolding write_loop
  after_loop-Talks n (nothing {v' = v'} shut) = Talks-bind _ (Talks-pure _) (
      Talks-bind _ shut (
        Talks-bind _ (agfs_write_error-Talks os t v' (pos 0))
          (Talks-last _ (agfs_write_size-Talks os t v' 0) (Talks-pure _))))
  after_loop-Talks n (taken {b = b} {k = k} {bs = bs} {v' = v'} took shut) =
      Talks-then_write _ (write_loop-Talks_taken os files t (pos n) b bs k took) (
        Talks-bind _ shut (
          Talks-bind _ (agfs_write_error-Talks os t v' (pos (suc k)))
            (Talks-last _ (agfs_write_size-Talks os t v' (suc k)) (Talks-pure _))))
  after_loop-Talks n (refused {b = b} {e = e} {bs = bs} {took = took} failed none_taken errno) =
      Talks-last _ (write_loop-Talks_refused os files t (pos n) b bs e took failed none_taken errno)
        (Talks-pure _)

  -- A file that can be opened for writing.
  pub process_write-Talks :
      {v v₁ v₂ v' : V} (bytes : List ℕ) (offset n : ℕ) (code result : ℤ)
      → length bytes < 2 ^ 63
      → offset < 2 ^ 64
      → Quiet t.ends (files.open_file (files.join c.mount_point path) o_wronly) v (pos n) v₁
      → Quiet t.ends (files.lseek (pos n) offset) v₁ code v₂
      → Stored os t.ends (pos n) bytes v₂ result v'
      → Talks t.ends
          (process_write os files c)
          v
          (string_frame path ++ (size_frame (length bytes) ++ (size_frame offset ++ bytes)))
          (write_reply result)
          tt
          v'
  unfolding process_write
  process_write-Talks {v} {v₁} {v₂} {v'} bytes offset n code result fits fits' opened sought
        stored =
      Talks-bind _ (read_file_path-Talks os files c t path text v) (
        Talks-bind _ opened (
          Talks-gets_known _ _ (λ s e. refl)
            (Talks-bind _ (agfs_write_error-Talks os t v₁ (pos 0)) (
              Talks-bind _ (agfs_read_size-Talks os t v₁ (length bytes) 0 (omega arith)) (
                Talks-bind _ (agfs_read_size-Talks os t v₁ offset 0 fits')
                  (Talks-bind _ sought (after_loop-Talks n stored)))))))

  -- A file that cannot be opened for writing: the answer is the error of open, and no data is read.
  pub process_write-Talks_unopened :
      {v v' : V} (k n : ℕ)
      → Quiet t.ends (files.open_file (files.join c.mount_point path) o_wronly) v (negsuc k) v'
      → Errno os t.ends v' (suc n)
      → Talks t.ends (process_write os files c) v (string_frame path) (error_frame (negsuc n)) tt v'
  unfolding process_write
  process_write-Talks_unopened {v} {v'} k n denied errno =
      Talks-then_write _ (read_file_path-Talks os files c t path text v) (
        Talks-bind _ denied (
          Talks-gets_known _ _ (λ s e. ap neg (errno s e))
            (Talks-last _ (agfs_write_error-Talks os t v' (negsuc n)) (Talks-pure _))))
