-- ===== src/Io/Receive.antt =====
-- What the read functions of src/agfsio.cpp make of a frame on a stream.
use ag_fs.Base.{
  ℕ, zero, suc, ◌+◌, ◌%◌, ◌^◌, ◌<◌, ◌≡◌, ◌≢◌, refl, sym, ap, ◌∙◌, List, [], ◌∷◌, length, set, All,
  ℤ, pos, arith,
}
use ag_fs.Words.{be_bytes, store, to_word, of_word}
use ag_fs.Words.Laws.{
  betoh-load, length-be_bytes, length-store, IsInt64, of_word-to_word, to_word-lt,
}
use ag_fs.Os.{Os, junk, length-junk}
use ag_fs.Os.Stream.{Stream, Talks, Talks-pure, Talks-bind, Talks-last, Talks-gets, Talks-value}
use ag_fs.Stat.{Stat, FitsStat, sent_part}
use ag_fs.Io.{
  overlay, c_string, read_object, read_member, agfs_read_cmd, agfs_read_mask, agfs_read_size,
  agfs_read_error, agfs_read_string, agfs_read_stat,
}
use ag_fs.Io.Frames.{
  string_result, cmd_frame, mask_frame, size_frame, error_frame, string_frame, IsText, stat_frame,
}

overlay_whole : (bs old : List ℕ) → length bs ≡ length old → overlay bs old ≡ bs
unfolding overlay
overlay_whole [] [] h = refl
overlay_whole [] (o ∷ old) h = absurd (omega arith)
overlay_whole (b ∷ bs) [] h = absurd (omega arith)
overlay_whole (b ∷ bs) (o ∷ old) h = ap (λ l. b ∷ l) (overlay_whole bs old (omega arith))

-- A buffer one byte longer than the text, with the text read into it and a NUL behind.
c_string-set-overlay :
    (str old : List ℕ)
    → All (λ c. c ≢ 0) str
    → length old ≡ length str + 1
    → c_string (set (overlay str old) (length str) 0) ≡ str
unfolding overlay c_string
c_string-set-overlay [] [] h e = absurd (omega arith)
c_string-set-overlay [] (o ∷ old) h e = refl
c_string-set-overlay (c ∷ str) [] h e = absurd (omega arith)
c_string-set-overlay (zero ∷ str) (o ∷ old) h e = absurd (h.0 refl)
c_string-set-overlay (suc c ∷ str) (o ∷ old) h e =
    ap (λ l. suc c ∷ l) (c_string-set-overlay str old h.1 (omega arith))

module _ (os : Os) {fd : ℤ} {W : Type 0} (t : Stream os fd W) (w : W) where
  pub read_object-Talks :
      (bs old : List ℕ)
      → length bs ≡ length old
      → Talks t.ends (read_object os fd (length bs) old) w bs [] (pos (length bs), bs) w
  unfolding read_object
  read_object-Talks bs old h =
      Talks-value (overlay_whole bs old h) (Talks-last _ (t.read_waits bs w) (Talks-pure _))

  -- The object is full of what was read, whatever it held.
  read_frame-Talks :
      (n v : ℕ) (old : List ℕ)
      → length old ≡ n
      → Talks t.ends (read_object os fd n old) w (be_bytes n v) [] (pos n, be_bytes n v) w
  read_frame-Talks n v old h =
      rw (length-be_bytes n v) at
        (read_object-Talks (be_bytes n v) old (length-be_bytes n v ∙ sym h))

  read_member-Talks :
      (n v : ℕ) (old : List ℕ)
      → v < 256 ^ n
      → length old ≡ n
      → Talks t.ends (read_member os fd n old) w (be_bytes n v) [] (pos n, v) w
  unfolding read_member
  read_member-Talks n v old lt h =
      Talks-value (betoh-load os.endian n v lt)
        (Talks-last _ (read_frame-Talks n v old h) (Talks-pure _))

  pub agfs_read_cmd-Talks :
      (cmd old : ℕ)
      → cmd < 2 ^ 16
      → Talks t.ends (agfs_read_cmd os fd old) w (cmd_frame cmd) [] (pos 2, cmd) w
  unfolding agfs_read_cmd read_member
  agfs_read_cmd-Talks cmd old h = read_member-Talks 2 cmd _ h (length-store os.endian 2 old)

  pub agfs_read_mask-Talks :
      (mask old : ℕ)
      → mask < 2 ^ 32
      → Talks t.ends (agfs_read_mask os fd old) w (mask_frame mask) [] (pos 4, mask) w
  unfolding agfs_read_mask read_member
  agfs_read_mask-Talks mask old h = read_member-Talks 4 mask _ h (length-store os.endian 4 old)

  pub agfs_read_size-Talks :
      (size old : ℕ)
      → size < 2 ^ 64
      → Talks t.ends (agfs_read_size os fd old) w (size_frame size) [] (pos 8, size) w
  unfolding agfs_read_size read_member
  agfs_read_size-Talks size old h = read_member-Talks 8 size _ h (length-store os.endian 8 old)

  pub agfs_read_error-Talks :
      (err old : ℤ)
      → IsInt64 err
      → Talks t.ends (agfs_read_error os fd old) w (error_frame err) [] (pos 8, err) w
  unfolding agfs_read_error
  agfs_read_error-Talks err old h =
      Talks-value
        (ap of_word (betoh-load os.endian 8 (to_word err) (to_word-lt err)) ∙ of_word-to_word err h)
        (Talks-last _ (read_frame-Talks 8 (to_word err) _ (length-store os.endian 8 (to_word old)))
          (Talks-pure _))

  read_text-Talks :
      (str old : List ℕ)
      → IsText str
      → length old ≡ length str + 1
      → Talks t.ends
          (read_object os fd (length str) old)
          w
          str
          []
          (pos (length str), overlay str old)
          w
  unfolding read_object
  read_text-Talks str old h e = Talks-last _ (t.read_waits str w) (Talks-pure _)

  pub agfs_read_string-Talks :
      (str old : List ℕ)
      → IsText str
      → Talks t.ends
          (agfs_read_string os fd old)
          w
          (string_frame str)
          []
          (string_result (length str), str)
          w
  unfolding agfs_read_string
  agfs_read_string-Talks str old h =
      Talks-bind _ (agfs_read_size-Talks (length str) 0 (omega (arith, h.fits))) (
        Talks-gets _ (λ buf. length buf ≡ length str + 1) _ (λ s _. length-string s)
          λ buf e.
            Talks-value (c_string-set-overlay str buf h.no_nul e)
              (Talks-last _ (read_text-Talks str buf h e) (Talks-pure _)))
    where
      length-string :
          (s : os.State) → length (junk os s ((length str + 1) % 2 ^ 64)) ≡ length str + 1
      length-string s = length-junk os s ((length str + 1) % 2 ^ 64) ∙ omega (arith, h.fits)

  pub agfs_read_stat-Talks :
      (st : Stat)
      → FitsStat st
      → Talks t.ends (agfs_read_stat os fd) w (stat_frame st) [] (pos 44, sent_part st) w
  unfolding agfs_read_stat
  agfs_read_stat-Talks st h =
      Talks-gets _ (λ a. length a ≡ 8) _ (λ s _. length-junk os s 8)
        λ a ha. Talks-bind _ (read_member-Talks 8 st.st_dev a h.dev ha) (
          Talks-gets _ (λ b. length b ≡ 4) _ (λ s _. length-junk os s 4)
            λ b hb. Talks-bind _ (read_member-Talks 4 st.st_mode b h.mode hb) (
              Talks-bind _ (agfs_read_size-Talks st.st_size 0 h.size) (
                Talks-bind _ (read_time h.atime) (
                  Talks-bind _ (read_time h.mtime)
                    (Talks-last _ (read_time h.ctime) (Talks-pure _))))))
    where
      read_time :
          {v : ℕ}
          → v < 256 ^ 8
          → Talks t.ends
              (read_member os fd 8 (store os.endian 8 0))
              w
              (be_bytes 8 v)
              []
              (pos 8, v)
              w
      read_time {v} lt = read_member-Talks 8 v _ lt (length-store os.endian 8 0)
