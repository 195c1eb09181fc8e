-- ===== src/Daemon.antt =====
-- src/agfsd.cpp: openPort, and main with its loop that accepts clients and forks a process for
-- each. The forked process itself is serve_client of Server/Admission.
pub mod Descriptors
pub mod Serving
use ag_fs.Base.{
  ℕ, zero, suc, List, [], ◌∷◌, ◌++◌, Option, none, some, ℤ, pos, negsuc, is_neg, if◌then◌else◌,
}
use ag_fs.Monad.{M, pure, ◌>>=◌, ◌>>◌}
use ag_fs.Os.{Os}
use ag_fs.Text.{Text}
use ag_fs.Connection.Connect.{is_minus_one}
use ag_fs.Server.{Files, ClientConnection}
use ag_fs.Server.Admission.{Accounts, serve_client}

-- What fork gives the process that calls it. The new process goes on from a state of its own.
pub data Forked (S : Type 0) : Type 0 where
  fork_failed : Forked S
  forked : S → Forked S

-- The calls of the system that the daemon makes.
pub record Listening (os : Os) : Type 1 where
  pub Address : Type 0
  -- getaddrinfo for a passive stream socket at a port; `none` if it fails
  pub getaddrinfo : Text → M os.State (Option Address)
  pub socket : Address → M os.State ℤ
  -- setsockopt(fd, SO_REUSEADDR)
  pub reuse_address : ℤ → M os.State ℤ
  pub bind : ℤ → Address → M os.State ℤ
  pub listen : ℤ → ℕ → M os.State ℤ
  pub accept : ℤ → M os.State ℤ
  pub fork : M os.State (Forked os.State)
  pub become_root : M os.State ℤ

-- A forked process: its descriptor of the connection, its state when it begins, and what becomes of
-- it, with the state that it ends in; `none` where its loops would go on.
pub record Child (S : Type 0) : Type 0 where
  pub connection : ℤ
  pub start : S
  pub outcome : Option ClientConnection × S

-- What is seen of a run of main: that it ended with this code, or that it listens on this
-- descriptor, and the processes that it has forked.
pub data DaemonRun (S : Type 0) : Type 0 where
  exited : ℕ → DaemonRun S
  serving : ℤ → List (Child S) → DaemonRun S

module _ (os : Os) (net : Listening os) where
  abbrev after_listen : ℤ → ℤ → M os.State ℤ
  after_listen listenfd res = if is_minus_one res then pure (negsuc 0) else pure listenfd

  abbrev after_bind : ℤ → ℤ → M os.State ℤ
  after_bind listenfd res =
      if is_minus_one res
      then pure (negsuc 0)
      else (do listened ← net.listen listenfd 1; after_listen listenfd listened)

  abbrev after_reuse : ℤ → net.Address → ℤ → M os.State ℤ
  after_reuse listenfd hostaddress res =
      if is_minus_one res
      then pure (negsuc 0)
      else (do bound ← net.bind listenfd hostaddress; after_bind listenfd bound)

  abbrev after_socket : net.Address → ℤ → M os.State ℤ
  after_socket hostaddress listenfd =
      if is_minus_one listenfd
      then pure (negsuc 0)
      else (do set ← net.reuse_address listenfd; after_reuse listenfd hostaddress set)

  abbrev after_lookup : Option net.Address → M os.State ℤ
  after_lookup none = pure (negsuc 1)
  after_lookup (some hostaddress) = do
    listenfd ← net.socket hostaddress
    after_socket hostaddress listenfd

  -- A socket that cannot be made to listen stays open.
  unfoldable pub open_port : Text → M os.State ℤ
  open_port port = do found ← net.getaddrinfo port; after_lookup found

  module _ (files : Files os) (accounts : Accounts os) (raw : ℕ) (fuel rounds : ℕ) where
    -- The loops of a forked process are bounded by `fuel` and `rounds`.
    unfoldable pub child_of : ℤ → ℤ → Forked os.State → List (Child os.State)
    child_of lfd connfd fork_failed = []
    child_of lfd connfd (forked start) =
        record {
          connection = connfd;
          start = start;
          outcome = serve_client os files accounts raw fuel rounds lfd connfd start;
        }
        ∷ []

    -- Both a fork that succeeded and one that failed close the connection in the daemon.
    abbrev after_accept : ℤ → ℤ → M os.State (List (Child os.State))
    after_accept lfd connfd =
        if is_minus_one connfd
        then pure []
        else (do pid ← net.fork; os.close connfd; pure (child_of lfd connfd pid))

    -- One round of main's loop.
    unfoldable pub accept_round : ℤ → M os.State (List (Child os.State))
    accept_round lfd = do connfd ← net.accept lfd; after_accept lfd connfd

    -- Main's loop does not end in the daemon; these are its first `clients` rounds.
    unfoldable pub accept_loop : ℕ → ℤ → M os.State (List (Child os.State))
    unfolding accept_round
    accept_loop zero lfd = pure []
    accept_loop (suc clients) lfd = do
      children ← accept_round lfd
      more ← accept_loop clients lfd
      pure (children ++ more)

    abbrev serve_from : ℕ → ℤ → M os.State (DaemonRun os.State)
    serve_from clients lfd =
        if is_neg lfd
        then pure (exited 1)
        else (do children ← accept_loop clients lfd; pure (serving lfd children))

    abbrev start_listening : ℕ → Text → ℤ → M os.State (DaemonRun os.State)
    start_listening clients port res =
        if is_minus_one res
        then pure (exited 1)
        else (do lfd ← open_port port; serve_from clients lfd)

    -- main, with the arguments behind the program's name.
    unfoldable pub daemon_main : ℕ → List Text → M os.State (DaemonRun os.State)
    daemon_main clients (port ∷ []) = do res ← net.become_root; start_listening clients port res
    daemon_main clients [] = pure (exited 0)
    daemon_main clients (_ ∷ _ ∷ _) = pure (exited 0)
