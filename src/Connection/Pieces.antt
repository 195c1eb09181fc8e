-- ===== src/Connection/Pieces.antt =====
-- The loop of ServerConnection::writeFile over a socket whose writes may take a part of the buffer.
use ag_fs.Base.{
  ℕ, zero, suc, ◌+◌, ◌≤◌, ◌≡◌, refl, sym, ap, ◌∙◌, false, List, [], ◌∷◌, ◌++◌, length, take, drop,
  Option, take-drop, drop-drop, length-drop, append_assoc, append-nil, less_differs, ℤ, pos, is_neg,
  arith,
}
use ag_fs.Monad.{◌>>=◌}
use ag_fs.Os.{Os}
use ag_fs.Os.Pieces.{Took, TakesSome}
use ag_fs.Io.{write_object}
use ag_fs.Connection.{send_loop}
use ag_fs.Connection.Writing.{send_loop_done}

module _ (os : Os) (fd : ℤ) (outbox : os.State → List ℕ) where
  -- The loop has counted the whole buffer, has met no error, and has written these bytes.
  pub record Sent (size : ℕ) (bytes : List ℕ) (s : os.State) (r : (ℕ × ℤ) × os.State) : Type 0 where
    pub total : r.0.0 ≡ size
    pub fine : is_neg r.0.1 ≡ false
    pub bytes_out : outbox r.1 ≡ outbox s ++ bytes

  Sent-piece :
      {size : ℕ} {bytes : List ℕ} {s : os.State} {call : Option ℕ × os.State}
      {r : (ℕ × ℤ) × os.State} (took : Took outbox bytes s call)
      → Sent size (drop (suc took.before_last) bytes) call.1 r
      → Sent size bytes s r
  Sent-piece {bytes = bytes} {s} took rest = record {
    total = rest.total;
    fine = rest.fine;
    bytes_out =
        rest.bytes_out
        ∙ ap (λ l. l ++ drop (suc took.before_last) bytes) took.sent
        ∙ append_assoc (outbox s) (take (suc took.before_last) bytes) _
        ∙ ap (λ l. outbox s ++ l) (take-drop (suc took.before_last) bytes);
  }

  module _ (takes : TakesSome outbox (os.write fd)) (buf : List ℕ) where
    send_loop_from :
        (fuel total : ℕ) (error : ℤ) (rest : List ℕ) (s : os.State)
        → drop total buf ≡ rest
        → length rest ≤ fuel
        → total + length rest ≡ length buf
        → is_neg error ≡ false
        → Sent (length buf) rest s (send_loop os fuel fd buf (length buf) total error s)
    unfolding send_loop write_object ◌>>=◌
    send_loop_from fuel total error [] s e enough sum fine =
        let same : total ≡ length buf = omega arith in
        rw (same, send_loop_done os fd fuel (length buf) buf error)
          (record { total = refl; fine = fine; bytes_out = sym (append-nil _) })
    send_loop_from zero total error (b ∷ bs) s e enough sum fine = absurd (omega arith)
    send_loop_from (suc fuel) total error (b ∷ bs) s e enough sum fine =
        let took = takes b bs s in
        let n = suc took.before_last in
        let left = length-drop n (b ∷ bs) took.fits in
        rw (less_differs total (length buf) (length bs) sum, e, took.result)
          (Sent-piece took (
            send_loop_from fuel (total + n) (pos n) (drop n (b ∷ bs)) (os.write fd (b ∷ bs) s).1
              (drop-drop total n buf ∙ ap (drop n) e) (omega arith) (omega arith) refl))

    -- If every write on the socket takes a byte at least, and says how many it has taken, then the
    -- loop of writeFile, with as many rounds as the buffer has bytes, ends by its test: it has
    -- written the whole buffer, each byte once and in order, it counts all of it, and it reports no
    -- error.
    pub send_loop-Sent :
        (s : os.State)
        → Sent (length buf) buf s (send_loop os (length buf) fd buf (length buf) 0 (pos 0) s)
    send_loop-Sent s =
        send_loop_from (length buf) 0 (pos 0) buf s refl (omega arith) (omega arith) refl
