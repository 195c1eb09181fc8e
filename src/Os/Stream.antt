-- ===== src/Os/Stream.antt =====
-- What a connected socket is relied on for, and a logic for code that talks over one.
-- `Ends` sees in a state the bytes that the peer has sent or will send and that are not read yet
-- (`inbox`), the bytes written so far (`outbox`), and the rest of the machine (`view`). A `Stream`
-- assumes of read that it waits for all the bytes it is asked for, and of write that it takes all
-- it is given: a transfer that is cut short or times out is not covered by a `Stream`.
use ag_fs.Base.{
  ℕ, ◌≡◌, refl, sym, ◌∙◌, ap, List, [], ◌++◌, length, append-nil, append_assoc, some, ℤ, pos,
}
use mathlib.Core.Path.{subst, subst₂}
use ag_fs.Monad.{M, pure, gets, ◌>>=◌}
use ag_fs.Os.{Os}

pub record Ends (S W : Type 0) : Type 0 where
  pub inbox : S → List ℕ
  pub outbox : S → List ℕ
  pub view : S → W

-- The outcome of `m` at `s`: its result, what is left to read, what was written, and the view.
pub record Reached {S W A : Type 0} (E : Ends S W) (m : M S A) (s : S) (rest outs : List ℕ) (a : A)
    (w : W) : Type 0 where
  pub result : (m s).0 ≡ a
  pub inbox : E.inbox (m s).1 ≡ rest
  pub outbox : E.outbox (m s).1 ≡ E.outbox s ++ outs
  pub view : E.view (m s).1 ≡ w

-- From any state with the view `w`, `m` reads exactly `ins`, writes exactly `outs`, returns `a`,
-- and leaves the view `w'`.
pub record Talks {S W A : Type 0} (E : Ends S W) (m : M S A) (w : W) (ins outs : List ℕ) (a : A)
    (w' : W) : Type 0 where
  pub at :
      (s : S) (rest : List ℕ)
      → E.view s ≡ w
      → E.inbox s ≡ ins ++ rest
      → Reached E m s rest outs a w'

module _ {S W A : Type 0} {E : Ends S W} where
  pub Talks-pure : {w : W} (a : A) → Talks E (pure a) w [] [] a w
  Talks-pure a = record {
    at = λ s rest hw hi. record {
      result = refl;
      inbox = hi;
      outbox = sym (append-nil _);
      view = hw;
    };
  }

  -- The streams may be written in another way.
  pub Talks-cast :
      {m : M S A} {w w' : W} {i o i' o' : List ℕ} {a : A}
      → i ≡ i'
      → o ≡ o'
      → Talks E m w i o a w'
      → Talks E m w i' o' a w'
  Talks-cast {m} {w} {w'} {a = a} p q t = subst₂ (λ x y. Talks E m w x y a w') p q t

module _ {S W A B : Type 0} {E : Ends S W} where
  -- A result beside an `int` may be written in another way.
  pub Talks-value :
      {m : M S (A × B)} {w w' : W} {i o : List ℕ} {a : A} {b b' : B}
      → b ≡ b'
      → Talks E m w i o (a, b) w'
      → Talks E m w i o (a, b') w'
  Talks-value {m} {w} {w'} {i} {o} {a} p t = subst (λ x. Talks E m w i o (a, x) w') p t

module _ {S W A B : Type 0} {E : Ends S W} {m : M S A} (f : A → M S B) where
  pub Talks-bind :
      {w w' w'' : W} {i o i' o' : List ℕ} {a : A} {b : B}
      → Talks E m w i o a w'
      → Talks E (f a) w' i' o' b w''
      → Talks E (m >>= f) w (i ++ i') (o ++ o') b w''
  unfolding ◌>>=◌
  Talks-bind {w' = w'} {w'' = w''} {i} {o} {i' = i'} {o' = o'} {a} {b} tm tf = record {
    at = λ s rest hw hi.
        let r : Reached E m s (i' ++ rest) o a w' =
          tm.at s (i' ++ rest) hw (hi ∙ append_assoc i i' rest) in
        let q : Reached E (f (m s).0) (m s).1 rest o' b w'' =
          subst (λ x. Reached E (f x) (m s).1 rest o' b w'') (sym r.result)
            (tf.at (m s).1 rest r.view r.inbox) in
        record {
          result = q.result;
          inbox = q.inbox;
          outbox = q.outbox ∙ ap (λ l. l ++ o') r.outbox ∙ append_assoc (E.outbox s) o o';
          view = q.view;
        };
  }

  -- A last step that does not talk adds nothing to the streams.
  pub Talks-last :
      {w w' w'' : W} {i o : List ℕ} {a : A} {b : B}
      → Talks E m w i o a w'
      → Talks E (f a) w' [] [] b w''
      → Talks E (m >>= f) w i o b w''
  Talks-last tm tf = Talks-cast (append-nil _) (append-nil _) (Talks-bind tm tf)

module _ {S W A B : Type 0} {E : Ends S W} {m : M S A} (f : A → M S B) where
  -- The last step that writes is followed by steps that read.
  pub Talks-then_read :
      {w w' w'' : W} {i o i' : List ℕ} {a : A} {b : B}
      → Talks E m w i o a w'
      → Talks E (f a) w' i' [] b w''
      → Talks E (m >>= f) w (i ++ i') o b w''
  Talks-then_read tm tf = Talks-cast refl (append-nil _) (Talks-bind f tm tf)

  -- The last step that reads is followed by steps that write.
  pub Talks-then_write :
      {w w' w'' : W} {i o o' : List ℕ} {a : A} {b : B}
      → Talks E m w i o a w'
      → Talks E (f a) w' [] o' b w''
      → Talks E (m >>= f) w i (o ++ o') b w''
  Talks-then_write tm tf = Talks-cast (append-nil _) refl (Talks-bind f tm tf)

module _ {S W A : Type 0} {E : Ends S W} (f : S → A) (P : A → Type 0) where
  -- A value that the state gives does not talk. What follows may use what is true of any such
  -- value.
  pub Talks-gets :
      {B : Type 0} (k : A → M S B) {w w' : W} {i o : List ℕ} {b : B}
      → ((s : S) → E.view s ≡ w → P (f s))
      → ((a : A) → P a → Talks E (k a) w i o b w')
      → Talks E (gets f >>= k) w i o b w'
  unfolding ◌>>=◌
  Talks-gets k p t = record {
    at = λ s rest hw hi.
        let q : Reached E (k (f s)) s rest _ _ _ = (t (f s) (p s hw)).at s rest hw hi in
        record { result = q.result; inbox = q.inbox; outbox = q.outbox; view = q.view };
  }

module _ {S W A B : Type 0} {E : Ends S W} (f : S → A) (k : A → M S B) where
  -- A value that the view determines.
  pub Talks-gets_known :
      {w w' : W} {i o : List ℕ} {a : A} {b : B}
      → ((s : S) → E.view s ≡ w → f s ≡ a)
      → Talks E (k a) w i o b w'
      → Talks E (gets f >>= k) w i o b w'
  Talks-gets_known {w} {w'} {i} {o} {a} {b} known t =
      Talks-gets f (λ x. x ≡ a) k known λ x e. subst (λ y. Talks E (k y) w i o b w') (sym e) t

-- A call that leaves the connection alone.
abbrev pub Quiet : {S W A : Type 0} → Ends S W → M S A → W → A → W → Type 0
Quiet E m w a w' = Talks E m w [] [] a w'

-- The error number of every machine with the view `w`.
abbrev pub Errno : (os : Os) {W : Type 0} → Ends os.State W → W → ℕ → Type 0
Errno os E w n = (s : os.State) → E.view s ≡ w → os.errno s ≡ n

-- The laws of a connected socket.
pub record Stream (os : Os) (fd : ℤ) (W : Type 0) : Type 0 where
  pub ends : Ends os.State W
  pub read_waits : (bs : List ℕ) (w : W) → Talks ends (os.read fd (length bs)) w bs [] (some bs) w
  pub write_takes : (bs : List ℕ) (w : W) → Talks ends (os.write fd bs) w [] bs (some (length bs)) w
  pub close_succeeds : (w : W) → Talks ends (os.close fd) w [] [] (pos 0) w
