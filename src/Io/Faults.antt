-- ===== src/Io/Faults.antt =====
-- Reads and writes that fail, for any system at all.
use ag_fs.Base.{
  ℕ, ◌+◌, ◌*◌, ◌/◌, ◌%◌, ◌^◌, ◌<◌, ◌≡◌, ap, List, [], length, none, some, ◌⊎◌, ℤ, negsuc, arith,
}
use ag_fs.Words.{Endian, little, big, store, load, betoh, bswap, le_bytes, of_le}
use ag_fs.Monad.{◌>>=◌}
use ag_fs.Os.{Os}
use ag_fs.Io.{read_object, agfs_read_cmd, agfs_write_size, agfs_write_string}

-- The peer is gone: every read on the socket fails or finds the end of the stream.
abbrev pub Gone : (os : Os) → ℤ → Type 0
Gone os fd = (n : ℕ) (s : os.State) → ((os.read fd n s).0 ≡ none) ⊎ ((os.read fd n s).0 ≡ some [])

-- The two bytes of a command, swapped if the host stores the lowest byte first.
abbrev pub swapped : Endian → ℕ → ℕ
swapped little cmd = cmd % 256 * 256 + cmd / 256
swapped big cmd = cmd

betoh-load-store :
    (e : Endian) (cmd : ℕ) → cmd < 2 ^ 16 → betoh e 2 (load e (store e 2 cmd)) ≡ swapped e cmd
unfolding betoh load store bswap le_bytes of_le
betoh-load-store little cmd h = omega arith
betoh-load-store big cmd h = omega arith

module _ (os : Os) (fd : ℤ) (s : os.State) where
  -- After a read that fails, agfs_read_cmd has swapped the bytes of the caller's variable on a host
  -- that stores the lowest byte first, so a default that the caller put there is lost.
  pub agfs_read_cmd_failed :
      (cmd : ℕ)
      → cmd < 2 ^ 16
      → (os.read fd 2 s).0 ≡ none
      → (agfs_read_cmd os fd cmd s).0 ≡ (negsuc 0, swapped os.endian cmd)
  unfolding agfs_read_cmd read_object ◌>>=◌
  agfs_read_cmd_failed cmd lt h = rw h (ap (λ c. (negsuc 0, c)) (betoh-load-store os.endian cmd lt))

  -- A string whose length cannot be written is not written either: the result is -1 and the state
  -- is the one that the failed write left.
  pub agfs_write_string_failed :
      (str : List ℕ)
      → (agfs_write_size os fd (length str) s).0 ≡ negsuc 0
      → agfs_write_string os fd str s ≡ agfs_write_size os fd (length str) s
  unfolding agfs_write_string ◌>>=◌
  agfs_write_string_failed str h = ground arith
