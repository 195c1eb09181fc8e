-- ===== src/Daemon/Descriptors.antt =====
-- The descriptors that the daemon and the processes that it forks hold.
use ag_fs.Base.{
  ℕ, zero, suc, Bool, true, false, not, ◌&&◌, ◌||◌, ◌≡◌, refl, sym, ap, ◌∙◌, List, In, In-append,
  Bool-cases, inl, inr, ℤ, ◌==ℤ◌, ==ℤ_sound,
}
use ag_fs.Monad.{M, ◌>>=◌}
use ag_fs.Os.{Os}
use ag_fs.Text.{Text}
use ag_fs.Connection.Connect.{is_minus_one}
use ag_fs.Server.{Files}
use ag_fs.Server.Admission.{Accounts, serve_client}
use ag_fs.Daemon.{
  Forked, fork_failed, forked, Listening, Child, child_of, accept_round, accept_loop,
}

module _ {S : Type 0} (holds : S → ℤ → Bool) where
  -- The process holds the same descriptors in both states.
  abbrev pub Same : S → S → Type 0
  Same s s' = (x : ℤ) → holds s' x ≡ holds s x

  -- In the second state the process holds a descriptor that it did not hold, and no other one.
  pub record Opened (s : S) (fd : ℤ) (s' : S) : Type 0 where
    pub fresh : holds s fd ≡ false
    pub held : (x : ℤ) → holds s' x ≡ (x ==ℤ fd || holds s x)

  -- What a call does that answers with a new descriptor, or with -1.
  abbrev pub Opens : M S ℤ → Type 0
  Opens m =
      (s : S)
      → (is_minus_one (m s).0 ≡ true → Same s (m s).1)
        × (is_minus_one (m s).0 ≡ false → Opened s (m s).0 (m s).1)

  pub Opened-Same : {s t u : S} {fd : ℤ} → Same s t → Opened t fd u → Opened s fd u
  Opened-Same {s} {t} {u} {fd} same o = record {
    fresh = sym (same fd) ∙ o.fresh;
    held = λ x. o.held x ∙ ap (λ b. x ==ℤ fd || b) (same x);
  }

-- What is assumed of the system: which calls open a descriptor, that close gives one up, and that a
-- forked process begins with the descriptors of the one that forked it.
pub record Table (os : Os) (net : Listening os) (holds : os.State → ℤ → Bool) : Type 0 where
  pub getaddrinfo_same : (port : Text) (s : os.State) → Same holds s (net.getaddrinfo port s).1
  pub reuse_same : (fd : ℤ) (s : os.State) → Same holds s (net.reuse_address fd s).1
  pub bind_same : (fd : ℤ) (a : net.Address) (s : os.State) → Same holds s (net.bind fd a s).1
  pub listen_same : (fd : ℤ) (n : ℕ) (s : os.State) → Same holds s (net.listen fd n s).1
  pub root_same : (s : os.State) → Same holds s (net.become_root s).1
  pub fork_same : (s : os.State) → Same holds s (net.fork s).1
  pub fork_copies : (s t : os.State) → (net.fork s).0 ≡ forked t → Same holds s t
  pub socket_opens : (a : net.Address) → Opens holds (net.socket a)
  pub accept_opens : (fd : ℤ) → Opens holds (net.accept fd)
  pub close_drops :
      (fd : ℤ) (s : os.State) (x : ℤ) → holds (os.close fd s).1 x ≡ (not (x ==ℤ fd) && holds s x)

-- Closing what was opened gives back what was held before.
drop_opened :
    (x fd : ℤ) (holds : ℤ → Bool)
    → holds fd ≡ false
    → (not (x ==ℤ fd) && (x ==ℤ fd || holds x)) ≡ holds x
drop_opened x fd holds fresh = elim (Bool-cases (x ==ℤ fd)) [
  | inl e ↦ rw (e) (sym (ap holds (==ℤ_sound x fd e) ∙ fresh))
  | inr e ↦ rw (e) refl
]

module _ (os : Os) (net : Listening os) (holds : os.State → ℤ → Bool) (table : Table os net holds)
    (files : Files os) (accounts : Accounts os) (raw fuel rounds : ℕ) where
  -- A child begins with one descriptor more than the daemon had, that of its connection, and runs
  -- serve_client.
  pub record Begun (lfd : ℤ) (s : os.State) (child : Child os.State) : Type 0 where
    pub opened : Opened holds s child.connection child.start
    pub runs :
        child.outcome
        ≡ serve_client os files accounts raw fuel rounds lfd child.connection child.start

  -- After rounds of the loop the daemon holds what it held before, and each child that was forked
  -- has begun.
  pub record Kept (lfd : ℤ) (s : os.State) (r : List (Child os.State) × os.State) : Type 0 where
    pub same : Same holds s r.1
    pub own : (child : Child os.State) → In child r.0 → Begun lfd s child

  child-Begun :
      (lfd connfd : ℤ) (s s' : os.State) (pid : Forked os.State)
      → ((t : os.State) → pid ≡ forked t → Same holds s' t)
      → Opened holds s connfd s'
      → (child : Child os.State)
      → In child (child_of os net files accounts raw fuel rounds lfd connfd pid)
      → Begun lfd s child
  unfolding child_of
  child-Begun lfd connfd s s' fork_failed copies o child m = elim m [ ]
  child-Begun lfd connfd s s' (forked t) copies o child (inl e) = rw (e) (record {
    opened = record { fresh = o.fresh; held = λ x. copies t refl x ∙ o.held x };
    runs = refl;
  })
  child-Begun lfd connfd s s' (forked t) copies o child (inr m) = elim m [ ]

  accept_round-Kept :
      (lfd : ℤ) (s : os.State)
      → Kept lfd s (accept_round os net files accounts raw fuel rounds lfd s)
  unfolding accept_round ◌>>=◌
  accept_round-Kept lfd s =
      let accepted = net.accept lfd s in
      elim (Bool-cases (is_minus_one accepted.0)) [
        | inl e ↦
            rw (e) (record { same = (table.accept_opens lfd s).0 e; own = λ child m. elim m [ ] })
        | inr e ↦
            let o = (table.accept_opens lfd s).1 e in
            let split = net.fork accepted.1 in
            rw (e) (record {
              same = λ x.
                  table.close_drops accepted.0 split.1 x
                  ∙ ap (λ b. not (x ==ℤ accepted.0) && b) (table.fork_same accepted.1 x ∙ o.held x)
                  ∙ drop_opened x accepted.0 (holds s) o.fresh;
              own =
                  child-Begun lfd accepted.0 s accepted.1 split.0 (table.fork_copies accepted.1) o;
            })
      ]

  pub accept_loop-Kept :
      (clients : ℕ) (lfd : ℤ) (s : os.State)
      → Kept lfd s (accept_loop os net files accounts raw fuel rounds clients lfd s)
  unfolding accept_loop ◌>>=◌
  accept_loop-Kept zero lfd s = record { same = λ x. refl; own = λ child m. elim m [ ] }
  accept_loop-Kept (suc clients) lfd s =
      let first = accept_round-Kept lfd s in
      let s1 = (accept_round os net files accounts raw fuel rounds lfd s).1 in
      let rest = accept_loop-Kept clients lfd s1 in
      record {
        same = λ x. rest.same x ∙ first.same x;
        own = λ child m. elim (In-append child _ _ m) [
          | inl now ↦ first.own child now
          | inr later ↦
              let begun = rest.own child later in
              record { opened = Opened-Same holds first.same begun.opened; runs = begun.runs }
        ];
      }
