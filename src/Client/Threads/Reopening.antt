-- ===== src/Client/Threads/Reopening.antt =====
-- A connection that is opened again while it is stopped.
use ag_fs.Base.{◌≡◌, refl, sym, ap, ◌∙◌, true, false, arith}
use ag_fs.Monad.{◌>>=◌}
use ag_fs.Os.{Os}
use ag_fs.Connection.{ServerConnection, connected, stop}
use ag_fs.Connection.Connect.{Network, connect}
use ag_fs.Client.Threads.{
  testing, finished, connect_open, connect_greet, go_on, leave, find_down, reopen, greet, stopping,
  System, Run, here, own, other,
}
use ag_fs.Client.Threads.Closing.{closed-open, closed-greet, closed-stop}

-- The two actions make up connect.
connect-split :
    (os : Os) (net : Network os) (c : ServerConnection) (s : os.State)
    → connect os net c s ≡ (connect_open os net c >>= connect_greet os net) s
unfolding connect connect_open connect_greet ◌>>=◌
connect-split os net c s = ground arith

module _ (os : Os) (net : Network os) (c : ServerConnection) (s : os.State) where
  abbrev pub at_test : System os net
  at_test = record { conn = c; machine = s; pc = testing }

  -- agfs_destroy can leave a connection open: if the heartbeat thread has found the connection
  -- down, agfs_destroy stops it, and connect then succeeds after the thread's sleep, the thread
  -- ends with the connection closed and connected.
  pub left_connected :
      c.closed ≡ false
      → connected c ≡ false
      → connected (connect os net (stop os c s).0.1 (stop os c s).1).0 ≡ true
      → (y : System os net) × Run os net at_test 5 y
        × (y.pc ≡ finished)
        × (y.conn.closed ≡ true)
        × (connected y.conn ≡ true)
  unfolding ◌>>=◌
  left_connected running down up =
      let z = stop os c s in
      let a = connect_open os net z.0.1 z.1 in
      let b = connect_greet os net a.0 a.1 in
      let closed : b.0.closed ≡ true =
        closed-greet os net a.0 a.1 ∙ closed-open os net z.0.1 z.1 ∙ closed-stop os c s in
      let split : connect os net z.0.1 z.1 ≡ b = connect-split os net z.0.1 z.1 in
      (
        record { conn = b.0; machine = b.1; pc = finished },
        own
            (own (own (other (own (own here (go_on running)) (find_down down)) stopping) reopen)
              greet)
            (leave closed),
        refl,
        closed,
        sym (ap (λ (r : ServerConnection × os.State). connected r.0) split) ∙ up,
      )
