-- ===== src/Server/Transfers/Pieces.antt =====
-- The loop of processWrite over a socket whose reads may bring a part of the data.
use ag_fs.Base.{
  ℕ, zero, suc, ◌+◌, ◌-◌, ◌≤◌, ◌≡◌, refl, sym, ap, ◌∙◌, List, [], ◌∷◌, ◌++◌, length, drop,
  length-drop, split-append, append_assoc, append-nil, less_differs, ℤ, pos, arith,
}
use ag_fs.Monad.{◌>>=◌}
use ag_fs.Os.{Os}
use ag_fs.Os.Pieces.{BringsSome, StoresAll}
use ag_fs.Io.{write_object}
use ag_fs.Server.{Files}
use ag_fs.Server.Transfers.{Transfer, ended, write_loop}
use ag_fs.Server.Transfers.Writing.{write_loop_done}

module _ (os : Os) (files : Files os) (socket fd : ℤ) (inbox file : os.State → List ℕ) where
  -- The loop has ended by its test without an error, has counted `size` bytes, has stored these in
  -- the file, and has left what is behind them to be read.
  pub record Saved (size : ℕ) (bytes rest : List ℕ) (s : os.State) (r : Transfer × os.State)
      : Type 0 where
    pub last : ℕ
    pub transfer : r.0 ≡ ended size (pos last)
    pub stored : file r.1 ≡ file s ++ bytes
    pub left : inbox r.1 ≡ rest

  Saved-piece :
      {size : ℕ} {more bytes rest : List ℕ} {s s₁ s₂ : os.State} {r : Transfer × os.State}
      (piece : List ℕ)
      → file s₁ ≡ file s
      → file s₂ ≡ file s₁ ++ piece
      → bytes ≡ piece ++ more
      → Saved size more rest s₂ r
      → Saved size bytes rest s r
  Saved-piece {more = more} {s = s} piece kept put split saved = record {
    last = saved.last;
    transfer = saved.transfer;
    stored =
        saved.stored
        ∙ ap (λ l. l ++ more) (put ∙ ap (λ l. l ++ piece) kept)
        ∙ append_assoc (file s) piece more
        ∙ ap (λ l. file s ++ l) (sym split);
    left = saved.left;
  }

  module _ (brings : BringsSome inbox file (os.read socket))
      (stores : StoresAll inbox file (os.write fd)) (rest : List ℕ) where
    write_loop_from :
        (fuel size total last : ℕ) (bytes : List ℕ) (s : os.State)
        → inbox s ≡ bytes ++ rest
        → length bytes ≤ fuel
        → total + length bytes ≡ size
        → Saved size bytes rest s (write_loop os files fuel socket fd size total total (pos last) s)
    unfolding write_loop write_object ◌>>=◌
    write_loop_from fuel size total last [] s here enough sum =
        let same : total ≡ size = omega arith in
        rw (same, write_loop_done os files fuel socket fd size size (pos last))
          (record { last = last; transfer = refl; stored = sym (append-nil _); left = here })
    write_loop_from zero size total last (b ∷ bs) s here enough sum = absurd (omega arith)
    write_loop_from (suc fuel) size total last (b ∷ bs) s here enough sum =
        let got = brings (length bs) b (bs ++ rest) s here in
        let s' = (os.read socket (suc (length bs)) s).1 in
        let piece = got.first ∷ got.others in
        let put = stores got.first got.others s' in
        let (later, split) = split-append piece (b ∷ bs) got.later rest got.fits got.whole in
        let asked : size - total ≡ suc (length bs) = omega arith in
        let sizes = length-drop (length piece) (b ∷ bs) got.fits in
        rw (less_differs total size (length bs) sum, asked, got.result, put.result)
          (Saved-piece piece got.kept put.stored split (
            write_loop_from fuel size (total + length piece) (length piece)
              (drop (length piece) (b ∷ bs)) (os.write fd piece s').1
              (put.unread ∙ got.left ∙ later) (omega arith) (omega arith)))

    -- If every read on the socket brings a byte at least of those on their way and says how many,
    -- and every write to the file takes all it is given, then the loop of processWrite, with as many
    -- rounds as bytes are announced, ends by its test once these bytes have come: they are stored in
    -- the file, each once and in order, the loop counts all of them and reports no error, and what
    -- is behind them on the socket is still to be read.
    pub write_loop-Saved :
        (bytes : List ℕ) (s : os.State)
        → inbox s ≡ bytes ++ rest
        → Saved
            (length bytes)
            bytes
            rest
            s
            (write_loop os files (length bytes) socket fd (length bytes) 0 0 (pos 0) s)
    write_loop-Saved bytes s here =
        write_loop_from (length bytes) (length bytes) 0 0 bytes s here (omega arith) (omega arith)
