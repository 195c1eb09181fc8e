-- ===== src/Io/RoundTrip.antt =====
-- What one host writes, another host reads back, whatever their byte orders.
use mathlib.Core.List.{append_cancel_left}
use ag_fs.Base.{ℕ, ◌+◌, ◌^◌, ◌<◌, ◌≡◌, refl, sym, ap, ◌∙◌, List, [], ◌++◌, length, ℤ, pos, arith}
use ag_fs.Words.Laws.{IsInt64}
use ag_fs.Monad.{M}
use ag_fs.Os.{Os}
use ag_fs.Os.Stream.{Ends, Stream, Reached, Talks}
use ag_fs.Stat.{Stat, FitsStat, sent_part}
use ag_fs.Io.{
  agfs_write_cmd, agfs_write_mask, agfs_write_size, agfs_write_error, agfs_write_string,
  agfs_write_stat, agfs_read_cmd, agfs_read_mask, agfs_read_size, agfs_read_error, agfs_read_string,
  agfs_read_stat,
}
use ag_fs.Io.Frames.{IsText, string_result}
use ag_fs.Io.Send.{
  agfs_write_cmd-Talks, agfs_write_mask-Talks, agfs_write_size-Talks, agfs_write_error-Talks,
  agfs_write_string-Talks, agfs_write_stat-Talks,
}
use ag_fs.Io.Receive.{
  agfs_read_cmd-Talks, agfs_read_mask-Talks, agfs_read_size-Talks, agfs_read_error-Talks,
  agfs_read_string-Talks, agfs_read_stat-Talks,
}

-- A run of `m` from `s` adds the bytes `sent` to the stream.
abbrev pub Sends : {S W A : Type 0} → Ends S W → M S A → S → List ℕ → Type 0
Sends E m s sent = E.outbox (m s).1 ≡ E.outbox s ++ sent

-- A run of `m` from `s` returns `a` and leaves `rest` on the stream.
abbrev pub Delivers : {S W A : Type 0} → Ends S W → M S A → S → A → List ℕ → Type 0
Delivers E m s a rest = ((m s).0 ≡ a) × (E.inbox (m s).1 ≡ rest)

-- A reader that understands the frame of a writer understands what the writer sends.
pub relay :
    {S S' W W' A A' : Type 0} {E : Ends S W} {E' : Ends S' W'} {m : M S A} {m' : M S' A'} (s : S)
    (s' : S') (sent rest : List ℕ) {frame : List ℕ} {a : A} {a' : A'}
    → Talks E m (E.view s) [] frame a (E.view s)
    → Talks E' m' (E'.view s') frame [] a' (E'.view s')
    → Sends E m s sent
    → E'.inbox s' ≡ sent ++ rest
    → Delivers E' m' s' a' rest
relay {E = E} {E' = E'} {m = m} {m' = m'} s s' sent rest {frame} {a} {a'} out inp h k =
    (r.result, r.inbox)
  where
    q : Reached E m s (E.inbox s) frame a (E.view s)
    q = out.at s (E.inbox s) refl refl

    same : sent ≡ frame
    same = append_cancel_left (E.outbox s) sent frame (sym h ∙ q.outbox)

    r : Reached E' m' s' rest [] a' (E'.view s')
    r = inp.at s' rest refl (k ∙ ap (λ l. l ++ rest) same)

-- Below 2 ^ 31 the count of bytes is not cut.
string_result_small : (n : ℕ) → n + 8 < 2 ^ 31 → string_result n ≡ pos (8 + n)
string_result_small n few = ground arith

module _ (host peer : Os) {fd fd' : ℤ} {W W' : Type 0} (out : Stream host fd W)
    (inp : Stream peer fd' W') (s : host.State) (s' : peer.State) where
  -- A command of 16 bits that one host writes is the command that another host reads, and no other
  -- byte of the stream is touched.
  pub read_cmd-write_cmd :
      (cmd old : ℕ) (sent rest : List ℕ)
      → cmd < 2 ^ 16
      → Sends out.ends (agfs_write_cmd host fd cmd) s sent
      → inp.ends.inbox s' ≡ sent ++ rest
      → Delivers inp.ends (agfs_read_cmd peer fd' old) s' (pos 2, cmd) rest
  read_cmd-write_cmd cmd old sent rest lt =
      relay s s' sent rest (agfs_write_cmd-Talks host out _ cmd)
        (agfs_read_cmd-Talks peer inp _ cmd old lt)

  pub read_mask-write_mask :
      (mask old : ℕ) (sent rest : List ℕ)
      → mask < 2 ^ 32
      → Sends out.ends (agfs_write_mask host fd mask) s sent
      → inp.ends.inbox s' ≡ sent ++ rest
      → Delivers inp.ends (agfs_read_mask peer fd' old) s' (pos 4, mask) rest
  read_mask-write_mask mask old sent rest lt =
      relay s s' sent rest (agfs_write_mask-Talks host out _ mask)
        (agfs_read_mask-Talks peer inp _ mask old lt)

  pub read_size-write_size :
      (size old : ℕ) (sent rest : List ℕ)
      → size < 2 ^ 64
      → Sends out.ends (agfs_write_size host fd size) s sent
      → inp.ends.inbox s' ≡ sent ++ rest
      → Delivers inp.ends (agfs_read_size peer fd' old) s' (pos 8, size) rest
  read_size-write_size size old sent rest lt =
      relay s s' sent rest (agfs_write_size-Talks host out _ size)
        (agfs_read_size-Talks peer inp _ size old lt)

  -- A signed error code in the range of int64_t arrives unchanged.
  pub read_error-write_error :
      (err old : ℤ) (sent rest : List ℕ)
      → IsInt64 err
      → Sends out.ends (agfs_write_error host fd err) s sent
      → inp.ends.inbox s' ≡ sent ++ rest
      → Delivers inp.ends (agfs_read_error peer fd' old) s' (pos 8, err) rest
  read_error-write_error err old sent rest lt =
      relay s s' sent rest (agfs_write_error-Talks host out _ err)
        (agfs_read_error-Talks peer inp _ err old lt)

  -- A string without NUL bytes, of fewer than 2 ^ 31 - 8 bytes, arrives unchanged, and the reader
  -- returns the number of bytes that it has read, those of the length included.
  pub read_string-write_string :
      (str old : List ℕ) (sent rest : List ℕ)
      → IsText str
      → length str + 8 < 2 ^ 31
      → Sends out.ends (agfs_write_string host fd str) s sent
      → inp.ends.inbox s' ≡ sent ++ rest
      → Delivers inp.ends (agfs_read_string peer fd' old) s' (pos (8 + length str), str) rest
  read_string-write_string str old sent rest text few =
      relay s s' sent rest (agfs_write_string-Talks host out _ str) (
        rw (string_result_small (length str) few) at
          (agfs_read_string-Talks peer inp (inp.ends.view s') str old text))

  -- Of a stat struct whose members fit their widths the six sent members arrive, and every other
  -- member arrives as 0.
  pub read_stat-write_stat :
      (st : Stat) (sent rest : List ℕ)
      → FitsStat st
      → Sends out.ends (agfs_write_stat host fd st) s sent
      → inp.ends.inbox s' ≡ sent ++ rest
      → Delivers inp.ends (agfs_read_stat peer fd') s' (pos 44, sent_part st) rest
  read_stat-write_stat st sent rest fits =
      relay s s' sent rest (agfs_write_stat-Talks host out _ st)
        (agfs_read_stat-Talks peer inp _ st fits)
