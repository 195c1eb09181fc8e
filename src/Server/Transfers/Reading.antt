-- ===== src/Server/Transfers/Reading.antt =====
-- processRead on the stream: the file comes in pieces, as read returns them, until the announced
-- size is reached or the file ends.
use ag_fs.Base.{
  ℕ, zero, suc, ◌+◌, ◌-◌, ◌^◌, ◌≤◌, ◌<◌, ◌≡◌, ◌≢◌, true, false, ◌==◌, List, [], ◌∷◌, ◌++◌, length,
  length-append, some, none, is_neg, if◌then◌else◌, ℤ, pos, negsuc, neg, ap, arith,
}
use ag_fs.Words.{of_word}
use ag_fs.Monad.{M, pure, ◌>>◌}
use ag_fs.Os.{Os}
use ag_fs.Os.Stream.{
  Ends, Stream, Talks, Talks-pure, Talks-bind, Talks-last, Talks-then_write, Talks-gets_known,
  Quiet, Errno,
}
use ag_fs.Text.{Text}
use ag_fs.Io.{write_object, agfs_write_error, agfs_write_size}
use ag_fs.Io.Frames.{IsText, error_frame, string_frame, size_frame}
use ag_fs.Io.Send.{agfs_write_error-Talks, agfs_write_size-Talks, write_object-Talks}
use ag_fs.Io.Receive.{agfs_read_size-Talks}
use ag_fs.Protocol.{read_reply}
use ag_fs.Server.{Files, ClientConnection, o_rdonly}
use ag_fs.Server.Handlers.Answers.{read_file_path-Talks}
use ag_fs.Server.Transfers.{read_loop, process_read}

module _ (os : Os) {V : Type 0} (E : Ends os.State V) (fd : ℤ) (size : ℕ) where
  -- The reads of a file from the bytes that are there and the view `v`, to the bytes that are there
  -- in the end: each asks for what is missing and gets a piece of it, or nothing at the end of the
  -- file.
  pub data Pieces : List ℕ → V → List ℕ → V → Type 0 where
    full : {buf : List ℕ} {v : V} → length buf ≡ size → Pieces buf v buf v
    ended :
        {buf : List ℕ} {v v' : V}
        → length buf < size
        → Quiet E (os.read fd (size - length buf)) v (some []) v'
        → Pieces buf v buf v'
    piece :
        {buf out : List ℕ} {v v' v'' : V} {b : ℕ} {bs : List ℕ}
        → length buf + length (b ∷ bs) ≤ size
        → Quiet E (os.read fd (size - length buf)) v (some (b ∷ bs)) v'
        → Pieces (buf ++ b ∷ bs) v' out v''
        → Pieces buf v out v''

  -- The reads of a file from the bytes that are there and the view `v`: some get a piece of what is
  -- missing, and then one fails.
  pub data Broken : List ℕ → V → V → Type 0 where
    breaks :
        {buf : List ℕ} {v v' : V}
        → length buf < size
        → Quiet E (os.read fd (size - length buf)) v none v'
        → Broken buf v v'
    after_piece :
        {buf : List ℕ} {v v' v'' : V} {b : ℕ} {bs : List ℕ}
        → length buf + length (b ∷ bs) ≤ size
        → Quiet E (os.read fd (size - length buf)) v (some (b ∷ bs)) v'
        → Broken (buf ++ b ∷ bs) v' v''
        → Broken buf v v''

  -- No piece goes past the announced size.
  pub Pieces-size : {buf out : List ℕ} {v v' : V} → Pieces buf v out v' → length out ≤ size
  Pieces-size (full h) = omega arith
  Pieces-size (ended h r) = omega arith
  Pieces-size (piece h r more) = Pieces-size more

==-true : (a b : ℕ) → a ≡ b → (a == b) ≡ true
==-true a b h = ground arith

==-false : (a b : ℕ) → a ≢ b → (a == b) ≡ false
==-false a b h = ground arith

module _ (os : Os) (files : Files os) {V : Type 0} (E : Ends os.State V) (fd : ℤ) (size : ℕ) where
  -- Fuel for the missing bytes is enough for the loop to collect all pieces without an error.
  read_loop-Pieces :
      (fuel : ℕ) {buf out : List ℕ} {v v' : V} (e : ℕ)
      → size ≤ length buf + fuel
      → Pieces os E fd size buf v out v'
      → (last : ℕ) × Talks E
          (read_loop os files fuel fd size buf (pos e))
          v
          []
          []
          (out, pos last)
          v'
  unfolding read_loop
  read_loop-Pieces zero e enough (full h) = (e, Talks-pure _)
  read_loop-Pieces zero e enough (ended h r) = absurd (omega arith)
  read_loop-Pieces zero e enough (piece h r more) = absurd (omega arith)
  read_loop-Pieces (suc fuel) {buf} e enough (full h) =
      (e, rw (==-true (length buf) size h) (Talks-pure _))
  read_loop-Pieces (suc fuel) {buf} e enough (ended h r) =
      (0, rw (==-false (length buf) size (omega arith)) (Talks-last _ r (Talks-pure _)))
  read_loop-Pieces (suc fuel) {buf} e enough (piece {b = b} {bs = bs} h r more) =
      let grown = length-append buf (b ∷ bs) in
      let (last, t) = read_loop-Pieces fuel (length (b ∷ bs)) (omega (arith, grown)) more in
      (last, rw (==-false (length buf) size (omega arith)) (Talks-bind _ r t))

  -- With that fuel, a read that fails ends the loop with the error -1.
  read_loop-Broken :
      (fuel : ℕ) {buf : List ℕ} {v v' : V} (e : ℕ)
      → size ≤ length buf + fuel
      → Broken os E fd size buf v v'
      → (out : List ℕ) × Talks E
          (read_loop os files fuel fd size buf (pos e))
          v
          []
          []
          (out, negsuc 0)
          v'
  unfolding read_loop
  read_loop-Broken zero e enough (breaks h r) = absurd (omega arith)
  read_loop-Broken zero e enough (after_piece h r more) = absurd (omega arith)
  read_loop-Broken (suc fuel) {buf} e enough (breaks h r) =
      (buf, rw (==-false (length buf) size (omega arith)) (Talks-last _ r (Talks-pure _)))
  read_loop-Broken (suc fuel) {buf} e enough (after_piece {b = b} {bs = bs} h r more) =
      let grown = length-append buf (b ∷ bs) in
      let (out, t) = read_loop-Broken fuel (length (b ∷ bs)) (omega (arith, grown)) more in
      (out, rw (==-false (length buf) size (omega arith)) (Talks-bind _ r t))

of_small_word : (n : ℕ) → n < 2 ^ 63 → of_word n ≡ pos n
unfolding of_word
of_small_word n h = ground arith

module _ (os : Os) (files : Files os) (c : ClientConnection) {V : Type 0} (t : Stream os c.socket V)
    (path : Text) (text : IsText path) where
  -- The part of processRead behind its loop, from the bytes read and the last value of `error`.
  abbrev answer_read : List ℕ × ℤ → M os.State (Unit {0})
  answer_read r =
      let error = if is_neg r.1 then r.1 else of_word (length r.0) in
      do
        agfs_write_error os c.socket error
        if is_neg error
            then pure tt
            else do agfs_write_size os c.socket (length r.0); write_object os c.socket r.0; pure tt

  -- A file that can be opened, with what its loop comes to.
  process_read-Talks_opened :
      {v v₁ v₂ v' : V} (size offset n : ℕ) (code : ℤ) (r : List ℕ × ℤ) {o : List ℕ}
      → size < 2 ^ 64
      → offset < 2 ^ 64
      → Quiet t.ends (files.open_file (files.join c.mount_point path) o_rdonly) v (pos n) v₁
      → Quiet t.ends (files.lseek (pos n) offset) v₁ code v₂
      → Talks t.ends (read_loop os files size (pos n) size [] (pos 0)) v₂ [] [] r v'
      → Talks t.ends (answer_read r) v' [] o tt v'
      → Talks t.ends
          (process_read os files c)
          v
          (string_frame path ++ (size_frame size ++ size_frame offset))
          o
          tt
          v'
  unfolding process_read
  process_read-Talks_opened {v} size offset n code r fits fits' opened sought looped answered =
      Talks-bind _ (read_file_path-Talks os files c t path text v) (
        Talks-bind _ (agfs_read_size-Talks os t v size 0 fits) (
          Talks-then_write _ (agfs_read_size-Talks os t v offset 0 fits')
            (Talks-bind _ opened (Talks-bind _ sought (Talks-bind _ looped answered)))))

  -- All its pieces are sent as one answer.
  pub process_read-Talks :
      {v v₁ v₂ v' : V} (size offset n : ℕ) (code : ℤ) (out : List ℕ)
      → size < 2 ^ 63
      → offset < 2 ^ 64
      → Quiet t.ends (files.open_file (files.join c.mount_point path) o_rdonly) v (pos n) v₁
      → Quiet t.ends (files.lseek (pos n) offset) v₁ code v₂
      → Pieces os t.ends (pos n) size [] v₂ out v'
      → Talks t.ends
          (process_read os files c)
          v
          (string_frame path ++ (size_frame size ++ size_frame offset))
          (read_reply out)
          tt
          v'
  process_read-Talks {v' = v'} size offset n code out fits fits' opened sought pieces =
      let (last, collected) =
        read_loop-Pieces os files t.ends (pos n) size size 0 (omega arith) pieces in
      let small : length out < 2 ^ 63 = omega (arith, Pieces-size os t.ends (pos n) size pieces) in
      process_read-Talks_opened size offset n code (out, pos last) (omega arith) fits' opened sought
        collected
        (rw (of_small_word (length out) small) (
          Talks-bind _ (agfs_write_error-Talks os t v' (pos (length out))) (
            Talks-bind _ (agfs_write_size-Talks os t v' (length out))
              (Talks-last _ (write_object-Talks os t v' out) (Talks-pure _)))))

  -- If a read of the file fails, the answer is the -1 of read, and no bytes.
  pub process_read-Talks_aborted :
      {v v₁ v₂ v' : V} (size offset n : ℕ) (code : ℤ)
      → size < 2 ^ 64
      → offset < 2 ^ 64
      → Quiet t.ends (files.open_file (files.join c.mount_point path) o_rdonly) v (pos n) v₁
      → Quiet t.ends (files.lseek (pos n) offset) v₁ code v₂
      → Broken os t.ends (pos n) size [] v₂ v'
      → Talks t.ends
          (process_read os files c)
          v
          (string_frame path ++ (size_frame size ++ size_frame offset))
          (error_frame (negsuc 0))
          tt
          v'
  process_read-Talks_aborted {v' = v'} size offset n code fits fits' opened sought broken =
      let (out, looped) =
        read_loop-Broken os files t.ends (pos n) size size 0 (omega arith) broken in
      process_read-Talks_opened size offset n code (out, negsuc 0) fits fits' opened sought looped
        (Talks-last _ (agfs_write_error-Talks os t v' (negsuc 0)) (Talks-pure _))

  -- A file that cannot be opened: the answer is the error of open, and nothing follows.
  pub process_read-Talks_unopened :
      {v v' : V} (size offset k n : ℕ)
      → size < 2 ^ 64
      → offset < 2 ^ 64
      → Quiet t.ends (files.open_file (files.join c.mount_point path) o_rdonly) v (negsuc k) v'
      → Errno os t.ends v' (suc n)
      → Talks t.ends
          (process_read os files c)
          v
          (string_frame path ++ (size_frame size ++ size_frame offset))
          (error_frame (negsuc n))
          tt
          v'
  unfolding process_read
  process_read-Talks_unopened {v} {v'} size offset k n fits fits' refused errno =
      Talks-bind _ (read_file_path-Talks os files c t path text v) (
        Talks-bind _ (agfs_read_size-Talks os t v size 0 fits) (
          Talks-then_write _ (agfs_read_size-Talks os t v offset 0 fits') (
            Talks-bind _ refused (
              Talks-gets_known _ _ (λ s e. ap neg (errno s e))
                (Talks-last _ (agfs_write_error-Talks os t v' (negsuc n)) (Talks-pure _))))))
