-- ===== src/Client/Threads.antt =====
-- src/agfs.cpp and src/serverconnection.cpp: one connection that several threads share. Its
-- heartbeat thread runs heartbeatThread; the thread of agfs_destroy stops it; the threads of FUSE
-- make calls. A method that holds the object's mutex is one action. ServerConnection::connect does
-- not take the mutex, and sets the member socket_ before it sends the key: it is two actions here.
pub mod Closing
pub mod Reopening
use ag_fs.Base.{ℕ, zero, suc, ◌≡◌, false, true, ℤ, negsuc, pos, Bool, not, if◌then◌else◌, ◌==◌}
use ag_fs.Monad.{M, pure, ◌>>=◌, ◌>>◌}
use ag_fs.Os.{Os}
use ag_fs.Constants.{cmd_accept, cmd_none}
use ag_fs.Io.{agfs_read_cmd, agfs_write_string}
use ag_fs.Connection.{ServerConnection, connected, stop, heartbeat}
use ag_fs.Connection.Connect.{
  Network, connect, dns_lookup, is_failure, client_block_sec, client_block_usec,
}

-- Where the heartbeat thread stands: before the test of its loop, before the test of the socket, in
-- one of the two sleeps, within connect, or at its end.
pub data Pc : Type 0 where
  testing : Pc
  choosing : Pc
  sleeping_down : Pc
  greeting : Pc
  sleeping_up : Pc
  finished : Pc

module _ (os : Os) (net : Network os) where
  -- connect, up to the assignment of socket_.
  unfoldable pub connect_open : ServerConnection → M os.State ServerConnection
  connect_open c = do fd ← dns_lookup os net c c.port; pure (record c { socket = fd })

  -- connect, from the switch on socket_ on.
  unfoldable pub connect_greet : ServerConnection → M os.State ServerConnection
  connect_greet c = if is_failure c.socket then pure c else do
    net.set_timeout c.socket client_block_sec client_block_usec
    net.set_blocking c.socket
    agfs_write_string os c.socket c.key
    (_, serv_resp) ← agfs_read_cmd os c.socket cmd_none
    if serv_resp == cmd_accept
        then pure c
        else do os.close c.socket; pure (record c { socket = negsuc 0 })

  -- One action of the heartbeat thread, from the members `c`, the machine `s` and its place.
  pub data Own (c : ServerConnection) (s : os.State)
      : Pc → ServerConnection → os.State → Pc → Type 0 where
    go_on : c.closed ≡ false → Own c s testing c s choosing
    leave : c.closed ≡ true → Own c s testing c s finished
    find_down : connected c ≡ false → Own c s choosing c s sleeping_down
    find_up : connected c ≡ true → Own c s choosing c s sleeping_up
    reopen : Own c s sleeping_down (connect_open c s).0 (connect_open c s).1 greeting
    greet : Own c s greeting (connect_greet c s).0 (connect_greet c s).1 testing
    beat : Own c s sleeping_up (heartbeat os c s).0.1 (heartbeat os c s).1 testing

  -- The thread's next action at its place, run.
  unfoldable pub act : ServerConnection → Pc → M os.State (ServerConnection × Pc)
  unfolding connect_open connect_greet
  act c testing = pure (c, if c.closed then finished else choosing)
  act c choosing = pure (c, if connected c then sleeping_up else sleeping_down)
  act c sleeping_down = do c' ← connect_open c; pure (c', greeting)
  act c greeting = do c' ← connect_greet c; pure (c', testing)
  act c sleeping_up = do (_, c') ← heartbeat os c; pure (c', testing)
  act c finished = pure (c, finished)

  -- join lets the thread run until it ends, here for `fuel` actions at most.
  unfoldable pub join : ℕ → ServerConnection → Pc → M os.State (ServerConnection × Pc)
  unfolding act
  join zero c pc = pure (c, pc)
  join (suc fuel) c pc = do (c', pc') ← act c pc; join fuel c' pc'

  -- One action of another thread: agfs_destroy stops the connection, or a call of FUSE uses it,
  -- which changes the machine and no member.
  pub data Other (c : ServerConnection) (s : os.State) : ServerConnection → os.State → Type 0 where
    stopping : Other c s (stop os c s).0.1 (stop os c s).1
    serving : (s' : os.State) → Other c s c s'

  pub record System : Type 0 where
    pub conn : ServerConnection
    pub machine : os.State
    pub pc : Pc

  -- The actions in any order; `n` of them are the heartbeat thread's own.
  pub data Run (x : System) : ℕ → System → Type 0 where
    here : Run x 0 x
    own :
        {n : ℕ} {y : System} {c : ServerConnection} {s : os.State} {p : Pc}
        → Run x n y
        → Own y.conn y.machine y.pc c s p
        → Run x (suc n) (record { conn = c; machine = s; pc = p })
    other :
        {n : ℕ} {y : System} {c : ServerConnection} {s : os.State}
        → Run x n y
        → Other y.conn y.machine c s
        → Run x n (record { conn = c; machine = s; pc = y.pc })
