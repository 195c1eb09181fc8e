-- ===== src/Daemon/Serving.antt =====
-- The whole run of the daemon: openPort, main, and what the forked processes hold.
use ag_fs.Base.{
  ℕ, Bool, true, false, not, ◌&&◌, ◌||◌, ◌≡◌, ◌≢◌, refl, sym, ap, ◌∙◌, List, [], ◌∷◌, length, In,
  Bool-cases, ◌⊎◌, inl, inr, ℤ, negsuc, if◌then◌else◌, is_neg, ◌==ℤ◌, ==ℤ_sound, Option-cases,
}
use ag_fs.Monad.{M, pure, ◌>>=◌}
use ag_fs.Os.{Os}
use ag_fs.Text.{Text}
use ag_fs.Connection.Connect.{is_minus_one}
use ag_fs.Server.{Files}
use ag_fs.Server.Admission.{Accounts, serve_client, serve_connection}
use ag_fs.Daemon.{
  Listening, Child, DaemonRun, exited, serving, open_port, after_socket, daemon_main,
}
use ag_fs.Daemon.Descriptors.{Same, Opened, Opened-Same, Table, Begun, accept_loop-Kept}

neither : (a b : Bool) → (a || b) ≡ false → b ≡ false
neither true b e = cc
neither false b e = e

-- What is new where a descriptor is held is not that descriptor.
other_new :
    (fd lfd : ℤ) (holds : ℤ → Bool)
    → holds lfd ≡ false
    → (fd ==ℤ lfd || holds fd) ≡ false
    → (lfd ==ℤ fd || holds lfd) ≡ false
other_new fd lfd holds free fresh = elim (Bool-cases (lfd ==ℤ fd)) [
  | inl e ↦
      let same : lfd ≡ fd = ==ℤ_sound lfd fd e in
      let swapped : (fd ==ℤ lfd) ≡ true =
        ap (λ y. y ==ℤ lfd) (sym same) ∙ ap (λ y. lfd ==ℤ y) same ∙ e in
      let absurd : true ≡ false = rw swapped at fresh in cc
  | inr e ↦ rw (e) free
]

-- A descriptor that is new where another one is held is not that one.
new_other :
    (x fd lfd : ℤ) (holds : ℤ → Bool)
    → holds lfd ≡ false
    → ((fd ==ℤ lfd) || holds fd) ≡ false
    → (not (x ==ℤ lfd) && (x ==ℤ fd || (x ==ℤ lfd || holds x))) ≡ (x ==ℤ fd || holds x)
new_other x fd lfd holds free fresh = elim (Bool-cases (x ==ℤ lfd)) [
  | inl e ↦
      rw (e) (
        sym (ap (λ y. y ==ℤ fd || holds y) (==ℤ_sound x lfd e) ∙ other_new fd lfd holds free fresh))
  | inr e ↦ rw (e) refl
]

module _ (os : Os) (net : Listening os) (holds : os.State → ℤ → Bool)
    (table : Table os net holds) where
  -- A process that gives up the listening socket keeps what was opened after it.
  close-Opened :
      {s t u : os.State} {lfd fd : ℤ}
      → Opened holds s lfd t
      → Opened holds t fd u
      → Opened holds s fd (os.close lfd u).1
  close-Opened {s} {t} {u} {lfd} {fd} first second =
      let unheld : (fd ==ℤ lfd || holds s fd) ≡ false = sym (first.held fd) ∙ second.fresh in
      record {
        fresh = neither (fd ==ℤ lfd) (holds s fd) unheld;
        held = λ x.
            table.close_drops lfd u x
            ∙ ap (λ b. not (x ==ℤ lfd) && b)
                (second.held x ∙ ap (λ b. x ==ℤ fd || b) (first.held x))
            ∙ new_other x fd lfd (holds s) first.fresh unheld;
      }

  -- If the call gives a number that is not negative, it is the descriptor, and nothing is opened.
  abbrev Stays : ℤ → M os.State ℤ → Type 0
  Stays fd m = (s : os.State) → is_neg (m s).0 ≡ false → ((m s).0 ≡ fd) × Same holds s (m s).1

  -- A step of openPort: a call that opens nothing, and the rest if it does not answer -1.
  step-Stays :
      (fd : ℤ) (call rest : M os.State ℤ)
      → ((s : os.State) → Same holds s (call s).1)
      → Stays fd rest
      → Stays fd (call >>= λ res. if is_minus_one res then pure (negsuc 0) else rest)
  unfolding ◌>>=◌
  step-Stays fd call rest same stays s = elim (Bool-cases (is_minus_one (call s).0)) [
    | inl e ↦ rw (e) (λ up. cc)
    | inr e ↦ rw (e) (λ up. let after = stays (call s).1 up in (after.0, λ x. after.1 x ∙ same s x))
  ]

  after_socket-Opened :
      (a : net.Address) (s : os.State)
      → is_neg ((net.socket a >>= after_socket os net a) s).0 ≡ false
      → Opened holds s
          ((net.socket a >>= after_socket os net a) s).0
          ((net.socket a >>= after_socket os net a) s).1
  unfolding ◌>>=◌
  after_socket-Opened a s =
      let made = net.socket a s in
      elim (Bool-cases (is_minus_one made.0)) [
        | inl e ↦ rw (e) (λ up. cc)
        | inr e ↦ rw (e) (λ up.
            let o = (table.socket_opens a s).1 e in
            let rest =
              step-Stays made.0 (net.reuse_address made.0) _ (table.reuse_same made.0)
                (step-Stays made.0 (net.bind made.0 a) _ (table.bind_same made.0 a) (
                  step-Stays made.0 (λ t. net.listen made.0 1 t) (pure made.0)
                    (table.listen_same made.0 1) (λ t neg. (refl, λ x. refl))))
                made.1 up in
            rw (rest.0) (record { fresh = o.fresh; held = λ x. rest.1 x ∙ o.held x }))
      ]

  -- openPort gives a descriptor that was not held, and holds no other new one, or a negative
  -- number.
  pub open_port-Opened :
      (port : Text) (s : os.State)
      → is_neg (open_port os net port s).0 ≡ false
      → Opened holds s (open_port os net port s).0 (open_port os net port s).1
  unfolding open_port ◌>>=◌
  open_port-Opened port s = elim (Option-cases (net.getaddrinfo port s).0) [
    | inl e ↦ rw (e) (λ up. cc)
    | inr e ↦ rw (e.1) (λ up.
        Opened-Same holds (table.getaddrinfo_same port s)
          (after_socket-Opened e.0 (net.getaddrinfo port s).1 up))
  ]

  module _ (files : Files os) (accounts : Accounts os) (raw fuel rounds : ℕ) where
    -- A forked process talks to its client from a state in which it holds the descriptor of this
    -- connection and otherwise what main held at its start.
    abbrev pub Alone : os.State → Child os.State → Type 0
    Alone s child =
        (t : os.State) × Opened holds s child.connection t
        × (child.outcome ≡ serve_connection os files accounts raw fuel rounds child.connection t)

    -- What a run of main from a state leaves: a run that ends has code 0 where the arguments are
    -- not one port, and code 1 otherwise. One that listens holds the listening socket more than
    -- before.
    abbrev pub Separate : List Text → os.State → DaemonRun os.State × os.State → Type 0
    Separate args s (exited code, s') =
        ((code ≡ 0) × (length args ≢ 1)) ⊎ ((code ≡ 1) × (length args ≡ 1))
    Separate args s (serving lfd children, s') =
        Opened holds s lfd s' × ((child : Child os.State) → In child children → Alone s child)

    Begun-Alone :
        {s t : os.State} {lfd : ℤ} {child : Child os.State}
        → Opened holds s lfd t
        → Begun os net holds table files accounts raw fuel rounds lfd t child
        → Alone s child
    unfolding serve_client ◌>>=◌
    Begun-Alone {lfd = lfd} {child} o begun =
        ((os.close lfd child.start).1, close-Opened o begun.opened, begun.runs)

    -- If the calls of the system open and close descriptors as documented: whatever accept and fork
    -- answer, in any number of rounds, the daemon keeps no connection open, and a forked process
    -- begins to read from its client in a state in which it holds its own connection, and neither
    -- the listening socket nor the connection of another client. Main ends only with code 0 for
    -- arguments that are not one port, or with code 1.
    pub daemon_main-Separate :
        (clients : ℕ) (args : List Text) (s : os.State)
        → Separate args s (daemon_main os net files accounts raw fuel rounds clients args s)
    unfolding daemon_main ◌>>=◌
    daemon_main-Separate clients [] s = inl (refl, λ e. cc)
    daemon_main-Separate clients (port ∷ []) s =
        elim (Bool-cases (is_minus_one (net.become_root s).0)) [
          | inl e ↦ rw (e) (inr (refl, refl))
          | inr e ↦ rw (e) (
              let root = net.become_root s in
              let listening = open_port os net port root.1 in
              elim (Bool-cases (is_neg listening.0)) [
                | inl down ↦ rw (down) (inr (refl, refl))
                | inr up ↦
                    let o =
                      Opened-Same holds (table.root_same s) (open_port-Opened port root.1 up) in
                    let kept =
                      accept_loop-Kept os net holds table files accounts raw fuel rounds clients
                        listening.0 listening.1 in
                    rw (up) (
                      record { fresh = o.fresh; held = λ x. kept.same x ∙ o.held x },
                      λ child m. Begun-Alone o (kept.own child m),
                    )
              ])
        ]
    daemon_main-Separate clients (port ∷ more ∷ args) s = inl (refl, λ e. cc)
