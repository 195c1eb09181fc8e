-- ===== src/Server/Transfers.antt =====
-- src/agfs-server.cpp: the handlers that move the contents of files.
pub mod Reading
pub mod Writing
pub mod Pieces
use ag_fs.Base.{
  ℕ, zero, suc, ◌+◌, ◌-◌, ◌==◌, List, [], ◌∷◌, ◌++◌, length, none, some, ℤ, pos, negsuc, neg,
  is_neg, is_pos, pos_part, if◌then◌else◌,
}
use ag_fs.Words.{of_word}
use ag_fs.Monad.{M, pure, gets, ◌>>=◌, ◌>>◌}
use ag_fs.Os.{Os}
use ag_fs.Io.{write_object, agfs_write_size, agfs_read_size, agfs_write_error}
use ag_fs.Server.{Files, ClientConnection, read_file_path, o_rdonly, o_wronly}

-- How the loop of processWrite ends: by its test, with the bytes written and the value of `error`;
-- or by the return in it.
pub data Transfer : Type 0 where
  ended : ℕ → ℤ → Transfer
  returned : Transfer

module _ (os : Os) (files : Files os) where
  -- The loop that reads the file, from the bytes read and the value of `error` so far. Every round
  -- but the last reads a byte at least, so `size` rounds are enough.
  unfoldable pub read_loop : ℕ → ℤ → ℕ → List ℕ → ℤ → M os.State (List ℕ × ℤ)
  read_loop zero fd size buf error = pure (buf, error)
  read_loop (suc fuel) fd size buf error = if length buf == size then pure (buf, error) else do
    got ← os.read fd (size - length buf)
    elim got [
      | none ↦ pure (buf, negsuc 0)
      | some [] ↦ pure (buf, pos 0)
      | some (b ∷ bs) ↦ read_loop fuel fd size (buf ++ b ∷ bs) (pos (length (b ∷ bs)))
    ]

  unfoldable pub process_read : ClientConnection → M os.State (Unit {0})
  unfolding read_loop
  process_read c = do
    file ← read_file_path os files c
    (_, size) ← agfs_read_size os c.socket 0
    (_, offset) ← agfs_read_size os c.socket 0
    fd ← files.open_file file o_rdonly
    if is_neg fd
        then (do error ← gets (λ s. neg (os.errno s)); agfs_write_error os c.socket error; pure tt)
        else do
          files.lseek fd offset
          (buf, last) ← read_loop size fd size [] (pos 0)
          let error = if is_neg last then last else of_word (length buf)
          agfs_write_error os c.socket error
          if is_neg error then pure tt else do
            agfs_write_size os c.socket (length buf)
            write_object os c.socket buf
            pure tt

  unfoldable pub write_loop : ℕ → ℤ → ℤ → ℕ → ℕ → ℕ → ℤ → M os.State Transfer
  write_loop zero socket fd size total_read total_written error = pure (ended total_written error)
  write_loop (suc fuel) socket fd size total_read total_written error =
      if total_read == size then pure (ended total_written error) else do
        got ← os.read socket (size - total_read)
        elim got [
          | none ↦ pure (ended total_written (negsuc 0))
          | some [] ↦ pure (ended total_written (pos 0))
          | some (b ∷ bs) ↦ do
            took ← write_object os fd (b ∷ bs)
            if is_pos took
                then write_loop fuel socket fd size (total_read + length (b ∷ bs))
                    (total_written + pos_part took) took
                else do
                  failure ← gets (λ s. neg (os.errno s))
                  agfs_write_error os socket failure
                  pure returned
        ]

  unfoldable pub process_write : ClientConnection → M os.State (Unit {0})
  unfolding write_loop
  process_write c = do
    file ← read_file_path os files c
    fd ← files.open_file file o_wronly
    error ← gets (λ s. if is_neg fd then neg (os.errno s) else pos 0)
    agfs_write_error os c.socket error
    if is_neg error then pure tt else do
      (_, size) ← agfs_read_size os c.socket 0
      (_, offset) ← agfs_read_size os c.socket 0
      files.lseek fd offset
      transfer ← write_loop size c.socket fd size 0 0 (pos 0)
      elim transfer [
        | returned ↦ pure tt
        | ended total_written last ↦ do
          os.close fd
          agfs_write_error os c.socket last
          if is_neg last then pure tt else do agfs_write_size os c.socket total_written; pure tt
      ]
