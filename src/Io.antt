-- ===== src/Io.antt =====
-- src/agfsio.cpp: numbers, strings and stat structs written to and read from a socket. A function
-- with a reference parameter returns the new value beside its `int`.
pub mod Frames
pub mod Receive
pub mod RoundTrip
pub mod Faults
pub mod Send
use ag_fs.Base.{
  ℕ, zero, suc, ◌+◌, ◌%◌, ◌^◌, List, [], ◌∷◌, length, set, Option, none, some, ℤ, pos, negsuc, ◌+ℤ◌,
  is_neg, if◌then◌else◌,
}
use ag_fs.Words.{store, load, htobe, betoh, to_word, of_word, to_int}
use ag_fs.Monad.{M, pure, gets, ◌>>=◌}
use ag_fs.Os.{Os, junk}
use ag_fs.Stat.{Stat, zero_stat}

-- The first bytes of an object are overwritten.
unfoldable pub overlay : List ℕ → List ℕ → List ℕ
overlay [] old = old
overlay (b ∷ bs) [] = []
overlay (b ∷ bs) (o ∷ old) = b ∷ overlay bs old

-- What read returns, and the buffer after it.
abbrev pub filled : List ℕ → Option (List ℕ) → ℤ × List ℕ
filled old none = (negsuc 0, old)
filled old (some bs) = (pos (length bs), overlay bs old)

-- What write returns.
abbrev pub written : Option ℕ → ℤ
written none = negsuc 0
written (some n) = pos n

-- The text of a C string: up to its first NUL.
unfoldable pub c_string : List ℕ → List ℕ
c_string [] = []
c_string (zero ∷ cs) = []
c_string (suc c ∷ cs) = suc c ∷ c_string cs

-- What agfs_write_string and agfs_read_string return: a negative `err`, or `err` added to the int
-- that has counted the bytes before.
abbrev pub add_int : ℤ → ℤ → ℤ
add_int total err = if is_neg err then err else to_int (total +ℤ err)

module _ (os : Os) where
  -- read(fd, &object, n), where the object holds `old`
  unfoldable pub read_object : ℤ → ℕ → List ℕ → M os.State (ℤ × List ℕ)
  read_object fd n old = do got ← os.read fd n; pure (filled old got)

  unfoldable pub write_object : ℤ → List ℕ → M os.State ℤ
  write_object fd bs = do took ← os.write fd bs; pure (written took)

  unfoldable pub agfs_write_cmd : ℤ → ℕ → M os.State ℤ
  agfs_write_cmd fd cmd = write_object fd (store os.endian 2 (htobe os.endian 2 cmd))

  unfoldable pub agfs_read_cmd : ℤ → ℕ → M os.State (ℤ × ℕ)
  agfs_read_cmd fd cmd = do
    (err, mem) ← read_object fd 2 (store os.endian 2 cmd)
    pure (err, betoh os.endian 2 (load os.endian mem))

  unfoldable pub agfs_write_mask : ℤ → ℕ → M os.State ℤ
  agfs_write_mask fd mask = write_object fd (store os.endian 4 (htobe os.endian 4 mask))

  unfoldable pub agfs_read_mask : ℤ → ℕ → M os.State (ℤ × ℕ)
  agfs_read_mask fd mask = do
    (err, mem) ← read_object fd 4 (store os.endian 4 mask)
    pure (err, betoh os.endian 4 (load os.endian mem))

  unfoldable pub agfs_write_size : ℤ → ℕ → M os.State ℤ
  agfs_write_size fd size = write_object fd (store os.endian 8 (htobe os.endian 8 size))

  unfoldable pub agfs_read_size : ℤ → ℕ → M os.State (ℤ × ℕ)
  agfs_read_size fd size = do
    (error, mem) ← read_object fd 8 (store os.endian 8 size)
    pure (error, betoh os.endian 8 (load os.endian mem))

  unfoldable pub agfs_write_error : ℤ → ℤ → M os.State ℤ
  agfs_write_error fd err = write_object fd (store os.endian 8 (htobe os.endian 8 (to_word err)))

  unfoldable pub agfs_read_error : ℤ → ℤ → M os.State (ℤ × ℤ)
  agfs_read_error fd err = do
    (error, mem) ← read_object fd 8 (store os.endian 8 (to_word err))
    pure (error, of_word (betoh os.endian 8 (load os.endian mem)))

  -- The results of write and read are stored in an int.
  unfoldable pub agfs_write_string : ℤ → List ℕ → M os.State ℤ
  agfs_write_string fd str = do
    err ← agfs_write_size fd (length str)
    if is_neg err then pure err else do err' ← write_object fd str; pure (add_int err (to_int err'))

  -- malloc leaves the buffer uninitialised; `str = string` copies it up to its first NUL, also
  -- after a failed read.
  unfoldable pub agfs_read_string : ℤ → List ℕ → M os.State (ℤ × List ℕ)
  agfs_read_string fd str = do
    (err, path_len) ← agfs_read_size fd 0
    if is_neg err then pure (err, str) else do
      string ← gets (λ s. junk os s ((path_len + 1) % 2 ^ 64))
      (err', mem) ← read_object fd path_len string
      pure (add_int err (to_int err'), c_string (set mem path_len 0))

  -- A 64-bit or a 32-bit member, converted by htobe64 or htobe32 and written.
  unfoldable pub write_member : ℤ → ℕ → ℕ → M os.State ℤ
  write_member fd w v = write_object fd (store os.endian w (htobe os.endian w v))

  unfoldable pub agfs_write_stat : ℤ → Stat → M os.State ℤ
  unfolding write_member
  agfs_write_stat fd buf = do
    dev ← write_member fd 8 buf.st_dev
    if is_neg dev then pure dev else do
      mode ← write_member fd 4 buf.st_mode
      if is_neg mode then pure mode else do
        size ← agfs_write_size fd buf.st_size
        if is_neg size then pure size else do
          atime ← write_member fd 8 buf.st_atime
          if is_neg atime then pure atime else do
            mtime ← write_member fd 8 buf.st_mtime
            if is_neg mtime then pure mtime else do
              ctime ← write_member fd 8 buf.st_ctime
              if is_neg ctime
                  then pure ctime
                  else pure (dev +ℤ mode +ℤ size +ℤ atime +ℤ mtime +ℤ ctime)

  -- A member is read into an object that holds `old`, and converted by be64toh or be32toh.
  unfoldable pub read_member : ℤ → ℕ → List ℕ → M os.State (ℤ × ℕ)
  read_member fd w old = do
    (temp, mem) ← read_object fd w old
    pure (temp, betoh os.endian w (load os.endian mem))

  -- The members `dev` and `mode` are read into uninitialised variables. A failed read leaves the
  -- struct zeroed.
  unfoldable pub agfs_read_stat : ℤ → M os.State (ℤ × Stat)
  unfolding read_member
  agfs_read_stat fd = do
    dev_junk ← gets (λ s. junk os s 8)
    (temp, dev) ← read_member fd 8 dev_junk
    if is_neg temp then pure (temp, zero_stat) else do
      mode_junk ← gets (λ s. junk os s 4)
      (temp₂, mode) ← read_member fd 4 mode_junk
      if is_neg temp₂ then pure (temp₂, zero_stat) else do
        (temp₃, size) ← agfs_read_size fd 0
        if is_neg temp₃ then pure (temp₃, zero_stat) else do
          (temp₄, atime) ← read_member fd 8 (store os.endian 8 0)
          if is_neg temp₄ then pure (temp₄, zero_stat) else do
            (temp₅, mtime) ← read_member fd 8 (store os.endian 8 0)
            if is_neg temp₅ then pure (temp₅, zero_stat) else do
              (temp₆, ctimestamp) ← read_member fd 8 (store os.endian 8 0)
              if is_neg temp₆
                  then pure (temp₆, zero_stat)
                  else pure (
                    temp +ℤ temp₂ +ℤ temp₃ +ℤ temp₄ +ℤ temp₅ +ℤ temp₆,
                    record zero_stat {
                      st_size = size;
                      st_mode = mode;
                      st_dev = dev;
                      st_atime = atime;
                      st_mtime = mtime;
                      st_ctime = ctimestamp;
                    },
                  )
