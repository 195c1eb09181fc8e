-- ===== src/Os/Sockets.antt =====
-- Several connected sockets of one machine: what a call on one of them leaves alone. Each of them is
-- a `Stream` whose view holds the bytes of all others.
use mathlib.Core.Path.{fun_ext}
use ag_fs.Base.{
  ℕ, ◌≡◌, refl, sym, ap, ◌∙◌, true, Bool-cases, inl, inr, List, [], ◌++◌, length, append-nil, some,
  ℤ, pos, negsuc, ◌==ℤ◌, ==ℤ_sound, ==_refl, if◌then◌else◌,
}
use ag_fs.Monad.{M}
use ag_fs.Os.{Os}
use ag_fs.Os.Stream.{Ends, Stream, Talks, Reached}

-- The bytes of every socket.
abbrev pub Bytes : Type 0
Bytes = ℤ → List ℕ

-- The bytes of one socket are replaced.
abbrev pub put : ℤ → List ℕ → Bytes → Bytes
put fd bs f x = if x ==ℤ fd then bs else f x

pub record Sockets (os : Os) (W : Type 0) : Type 0 where
  pub inbox : os.State → Bytes
  pub outbox : os.State → Bytes
  pub view : os.State → W
  pub read_result :
      (fd : ℤ) (bs rest : List ℕ) (s : os.State)
      → inbox s fd ≡ bs ++ rest
      → (os.read fd (length bs) s).0 ≡ some bs
  pub read_inbox :
      (fd : ℤ) (bs rest : List ℕ) (s : os.State)
      → inbox s fd ≡ bs ++ rest
      → inbox (os.read fd (length bs) s).1 ≡ put fd rest (inbox s)
  pub read_outbox : (fd : ℤ) (n : ℕ) (s : os.State) → outbox (os.read fd n s).1 ≡ outbox s
  pub read_view : (fd : ℤ) (n : ℕ) (s : os.State) → view (os.read fd n s).1 ≡ view s
  pub write_result : (fd : ℤ) (bs : List ℕ) (s : os.State) → (os.write fd bs s).0 ≡ some (length bs)
  pub write_inbox : (fd : ℤ) (bs : List ℕ) (s : os.State) → inbox (os.write fd bs s).1 ≡ inbox s
  pub write_outbox :
      (fd : ℤ) (bs : List ℕ) (s : os.State)
      → outbox (os.write fd bs s).1 ≡ put fd (outbox s fd ++ bs) (outbox s)
  pub write_view : (fd : ℤ) (bs : List ℕ) (s : os.State) → view (os.write fd bs s).1 ≡ view s
  pub close_result : (fd : ℤ) (s : os.State) → (os.close fd s).0 ≡ pos 0
  pub close_inbox : (fd : ℤ) (s : os.State) → inbox (os.close fd s).1 ≡ inbox s
  pub close_outbox : (fd : ℤ) (s : os.State) → outbox (os.close fd s).1 ≡ outbox s
  pub close_view : (fd : ℤ) (s : os.State) → view (os.close fd s).1 ≡ view s

==ℤ_refl : (a : ℤ) → (a ==ℤ a) ≡ true
==ℤ_refl (pos n) = ==_refl n
==ℤ_refl (negsuc n) = ==_refl n

put_self : (fd : ℤ) (bs : List ℕ) (f : Bytes) → put fd bs f fd ≡ bs
put_self fd bs f = rw (==ℤ_refl fd) refl

put-put : (fd : ℤ) (bs bs' : List ℕ) (f : Bytes) → put fd bs (put fd bs' f) ≡ put fd bs f
put-put fd bs bs' f =
    fun_ext λ x. elim (Bool-cases (x ==ℤ fd)) [ inl e ↦ rw e refl | inr e ↦ rw e refl ]

-- Bytes that agree outside one socket differ by a replacement.
put_apart : (fd : ℤ) (f g : Bytes) → put fd [] g ≡ put fd [] f → g ≡ put fd (g fd) f
put_apart fd f g e = fun_ext λ x. elim (Bool-cases (x ==ℤ fd)) [
  | inl same ↦ rw same (ap g (==ℤ_sound x fd same))
  | inr other ↦
      let here : put fd [] g x ≡ put fd [] f x = ap (λ (h : Bytes). h x) e in
      rw other (rw other at here)
]

module _ (os : Os) {W : Type 0} (sockets : Sockets os W) (fd : ℤ) where
  abbrev pub Around : Type 0
  Around = W × (Bytes × Bytes)

  -- What is not on the socket `fd`.
  abbrev pub around : os.State → Around
  around s = (sockets.view s, (put fd [] (sockets.inbox s), put fd [] (sockets.outbox s)))

  abbrev ends_of : Ends os.State Around
  ends_of = record {
    inbox = λ s. sockets.inbox s fd;
    outbox = λ s. sockets.outbox s fd;
    view = around;
  }

  around_same :
      {s s' : os.State}
      → sockets.view s' ≡ sockets.view s
      → put fd [] (sockets.inbox s') ≡ put fd [] (sockets.inbox s)
      → put fd [] (sockets.outbox s') ≡ put fd [] (sockets.outbox s)
      → around s' ≡ around s
  around_same p q r = λ i. (p i, (q i, r i))

  module _ (s : os.State) where
    -- A call that leaves the outbox alone, and has read from the socket or not.
    read_around :
        (n : ℕ) (rest : List ℕ)
        → sockets.inbox (os.read fd n s).1 ≡ put fd rest (sockets.inbox s)
        → around (os.read fd n s).1 ≡ around s
    read_around n rest e =
        around_same (sockets.read_view fd n s)
          (ap (put fd []) e ∙ put-put fd [] rest (sockets.inbox s))
          (ap (put fd []) (sockets.read_outbox fd n s))

    write_around : (bs : List ℕ) → around (os.write fd bs s).1 ≡ around s
    write_around bs =
        around_same (sockets.write_view fd bs s) (ap (put fd []) (sockets.write_inbox fd bs s)) (
          ap (put fd []) (sockets.write_outbox fd bs s)
          ∙ put-put fd [] (sockets.outbox s fd ++ bs) (sockets.outbox s))

    close_around : around (os.close fd s).1 ≡ around s
    close_around =
        around_same (sockets.close_view fd s) (ap (put fd []) (sockets.close_inbox fd s))
          (ap (put fd []) (sockets.close_outbox fd s))

  -- One of the sockets, as a stream.
  pub stream_of : Stream os fd Around
  stream_of = record {
    ends = ends_of;
    read_waits = λ bs w. record {
      at = λ s rest hw hi.
          let e = sockets.read_inbox fd bs rest s hi in
          record {
            result = sockets.read_result fd bs rest s hi;
            inbox = ap (λ (f : Bytes). f fd) e ∙ put_self fd rest (sockets.inbox s);
            outbox =
                ap (λ (f : Bytes). f fd) (sockets.read_outbox fd (length bs) s)
                ∙ sym (append-nil (sockets.outbox s fd));
            view = read_around s (length bs) rest e ∙ hw;
          };
    };
    write_takes = λ bs w. record {
      at = λ s rest hw hi. record {
        result = sockets.write_result fd bs s;
        inbox = ap (λ (f : Bytes). f fd) (sockets.write_inbox fd bs s) ∙ hi;
        outbox =
            ap (λ (f : Bytes). f fd) (sockets.write_outbox fd bs s)
            ∙ put_self fd (sockets.outbox s fd ++ bs) (sockets.outbox s);
        view = write_around s bs ∙ hw;
      };
    };
    close_succeeds = λ w. record {
      at = λ s rest hw hi. record {
        result = sockets.close_result fd s;
        inbox = ap (λ (f : Bytes). f fd) (sockets.close_inbox fd s) ∙ hi;
        outbox =
            ap (λ (f : Bytes). f fd) (sockets.close_outbox fd s)
            ∙ sym (append-nil (sockets.outbox s fd));
        view = close_around s ∙ hw;
      };
    };
  }

-- A conversation on one socket, seen on all: the result, what was read and what was written there,
-- and nothing else has changed.
pub record Exchanged {W A : Type 0} (os : Os) (sockets : Sockets os W) (fd : ℤ) (m : M os.State A)
    (s : os.State) (rest outs : List ℕ) (a : A) : Type 0 where
  pub result : (m s).0 ≡ a
  pub inbox : sockets.inbox (m s).1 ≡ put fd rest (sockets.inbox s)
  pub outbox : sockets.outbox (m s).1 ≡ put fd (sockets.outbox s fd ++ outs) (sockets.outbox s)
  pub view : sockets.view (m s).1 ≡ sockets.view s

module _ (os : Os) {W A : Type 0} (sockets : Sockets os W) (fd : ℤ) {m : M os.State A}
    (s : os.State) (rest : List ℕ) {ins outs : List ℕ} {a : A} where
  pub Talks-Exchanged :
      Talks
        (stream_of os sockets fd).ends
        m
        (around os sockets fd s)
        ins
        outs
        a
        (around os sockets fd s)
      → sockets.inbox s fd ≡ ins ++ rest
      → Exchanged os sockets fd m s rest outs a
  unfolding stream_of
  Talks-Exchanged t hi =
      let r : Reached (stream_of os sockets fd).ends m s rest outs a (around os sockets fd s) =
        t.at s rest refl hi in
      record {
        result = r.result;
        inbox =
            put_apart fd _ _ (ap (λ (v : Around os sockets fd). v.1.0) r.view)
            ∙ ap (λ x. put fd x (sockets.inbox s)) r.inbox;
        outbox =
            put_apart fd _ _ (ap (λ (v : Around os sockets fd). v.1.1) r.view)
            ∙ ap (λ x. put fd x (sockets.outbox s)) r.outbox;
        view = ap (λ (v : Around os sockets fd). v.0) r.view;
      }
