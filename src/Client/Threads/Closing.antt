-- ===== src/Client/Threads/Closing.antt =====
-- What the threads can rely on when a connection is closed.
use ag_fs.Base.{ℕ, ◌+◌, ◌≤◌, ◌≡◌, ◌≢◌, refl, ◌∙◌, Bool, true, false, if◌then◌else◌, arith}
use ag_fs.Monad.{◌>>=◌}
use ag_fs.Os.{Os}
use ag_fs.Connection.{ServerConnection, connected, stop, heartbeat}
use ag_fs.Connection.Connect.{Network}
use ag_fs.Client.Threads.{
  Pc, testing, choosing, sleeping_down, greeting, sleeping_up, finished, connect_open,
  connect_greet, act, Own, go_on, leave, find_down, find_up, reopen, greet, beat, Other, stopping,
  serving, System, Run, here, own, other,
}

module _ (os : Os) (net : Network os) (c : ServerConnection) (s : os.State) where
  -- No action of a thread opens a connection again that is closed.
  pub closed-open : (connect_open os net c s).0.closed ≡ c.closed
  unfolding connect_open ◌>>=◌
  closed-open = refl

  pub closed-greet : (connect_greet os net c s).0.closed ≡ c.closed
  unfolding connect_greet ◌>>=◌
  closed-greet = ground arith

module _ (os : Os) (c : ServerConnection) (s : os.State) where
  pub closed-heartbeat : (heartbeat os c s).0.1.closed ≡ c.closed
  unfolding heartbeat ◌>>=◌
  closed-heartbeat = ground arith

  pub closed-stop : (stop os c s).0.1.closed ≡ true
  unfolding stop ◌>>=◌
  closed-stop = ground arith

-- How many own actions a heartbeat thread has left at most, once the connection is closed.
abbrev pub remaining : Pc → ℕ
remaining testing = 1
remaining choosing = 4
remaining sleeping_down = 3
remaining greeting = 2
remaining sleeping_up = 2
remaining finished = 0

module _ (os : Os) (net : Network os) where
  Own-closed :
      {c : ServerConnection} {s : os.State} {c' : ServerConnection} {s' : os.State} {p p' : Pc}
      → Own os net c s p c' s' p'
      → c'.closed ≡ c.closed
  Own-closed (go_on _) = refl
  Own-closed (leave _) = refl
  Own-closed (find_down _) = refl
  Own-closed (find_up _) = refl
  Own-closed {c} {s = s} reopen = closed-open os net c s
  Own-closed {c} {s = s} greet = closed-greet os net c s
  Own-closed {c} {s = s} beat = closed-heartbeat os c s

  Own-remaining :
      {c : ServerConnection} {s : os.State} {c' : ServerConnection} {s' : os.State} {p p' : Pc}
      → Own os net c s p c' s' p'
      → c.closed ≡ true
      → remaining p' + 1 ≤ remaining p
  Own-remaining (go_on h) e = ground arith
  Own-remaining (leave _) e = omega arith
  Own-remaining (find_down _) e = omega arith
  Own-remaining (find_up _) e = omega arith
  Own-remaining reopen e = omega arith
  Own-remaining greet e = omega arith
  Own-remaining beat e = omega arith

  Other-closed :
      {c : ServerConnection} {s : os.State} {c' : ServerConnection} {s' : os.State}
      → Other os net c s c' s'
      → c.closed ≡ true
      → c'.closed ≡ true
  Other-closed {c} {s = s} stopping e = closed-stop os c s
  Other-closed (serving _) e = e

  Run-closed :
      {x y : System os net} {n : ℕ} → Run os net x n y → x.conn.closed ≡ true → y.conn.closed ≡ true
  Run-closed here e = e
  Run-closed (own run act) e = Own-closed act ∙ Run-closed run e
  Run-closed (other run act) e = Other-closed act (Run-closed run e)

  -- A heartbeat thread that has not ended can always make its next action.
  abbrev pub Next : ServerConnection → os.State → Pc → Type 0
  Next c s p = (c' : ServerConnection) × (s' : os.State) × (p' : Pc) × Own os net c s p c' s' p'

  test_loop :
      (c : ServerConnection) (s : os.State) (b : Bool)
      → c.closed ≡ b
      → Own os net c s testing c s (if b then finished else choosing)
  test_loop c s true e = leave e
  test_loop c s false e = go_on e

  test_socket :
      (c : ServerConnection) (s : os.State) (b : Bool)
      → connected c ≡ b
      → Own os net c s choosing c s (if b then sleeping_up else sleeping_down)
  test_socket c s true e = find_up e
  test_socket c s false e = find_down e

  -- What `act` runs is an action of the thread.
  act-Own :
      (c : ServerConnection) (s : os.State) (p : Pc)
      → p ≢ finished
      → Own os net c s p (act os net c p s).0.0 (act os net c p s).1 (act os net c p s).0.1
  unfolding act ◌>>=◌
  act-Own c s testing h = test_loop c s c.closed refl
  act-Own c s choosing h = test_socket c s (connected c) refl
  act-Own c s sleeping_down h = reopen
  act-Own c s greeting h = greet
  act-Own c s sleeping_up h = beat
  act-Own c s finished h = absurd (h refl)

  next : (c : ServerConnection) (s : os.State) (p : Pc) → p ≢ finished → Next c s p
  next c s p h = (_, _, _, act-Own c s p h)

  Run-remaining :
      {x y : System os net} {n : ℕ}
      → Run os net x n y
      → x.conn.closed ≡ true
      → n + remaining y.pc ≤ remaining x.pc
  Run-remaining here e = omega arith
  Run-remaining (own run act) e =
      omega (arith, Run-remaining run e, Own-remaining act (Run-closed run e))
  Run-remaining (other run act) e = Run-remaining run e

  pub remaining-le : (p : Pc) → remaining p ≤ 4
  remaining-le p = ground arith

  -- Once a connection is closed, its heartbeat thread ends, whatever the other threads do: it makes
  -- four actions of its own at most, and never more than are left from its place, and while it has
  -- not ended it can make one.
  pub closed_ends :
      {x y : System os net} {n : ℕ}
      → Run os net x n y
      → x.conn.closed ≡ true
      → (n + remaining y.pc ≤ remaining x.pc)
        × (n ≤ 4)
        × (y.pc ≢ finished → Next y.conn y.machine y.pc)
  closed_ends {x} {y} run e = (
    Run-remaining run e,
    omega (arith, Run-remaining run e, remaining-le x.pc),
    next y.conn y.machine y.pc,
  )
