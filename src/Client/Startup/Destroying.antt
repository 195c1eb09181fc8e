-- ===== src/Client/Startup/Destroying.antt =====
-- agfs_destroy of src/agfs.cpp: what has become of the connections and of their threads.
use ag_fs.Base.{◌≡◌, false, true, Bool, ◌&&◌, not, List, map}
use ag_fs.Os.{Os}
use ag_fs.Text.{Text}
use ag_fs.Connection.{ServerConnection, connected}
use ag_fs.Connection.Connect.{Network}
use ag_fs.Client.Threads.{Pc, testing, choosing, sleeping_down, greeting, sleeping_up, finished}
use ag_fs.Client.Startup.{Places, Joined}

-- The hosts of the connections, in their order.
abbrev pub hosts : Joined → List Text
hosts = map (λ (entry : Text × ServerConnection × Pc). entry.0)

-- No server is connected any more, and every heartbeat thread is told to end.
abbrev Stopped : Text × ServerConnection → Type 0
Stopped (host, c) = (connected c ≡ false) × (c.closed ≡ true)

-- At these places the thread has seen the connection down, or is about to test it, and calls
-- connect before it tests the loop again.
abbrev pub reopens : Pc → Bool
reopens testing = false
reopens choosing = true
reopens sleeping_down = true
reopens greeting = true
reopens sleeping_up = false
reopens finished = false

module _ (os : Os) (net : Network os) where
  -- The thread has ended, its connection is closed, and it is connected at most if the thread was
  -- at a place that reopens it.
  abbrev pub Ended : Places → Text × ServerConnection × Pc → Type 0
  Ended places (host, c, pc) =
      (pc ≡ finished) × (c.closed ≡ true) × ((connected c && not (reopens (places host))) ≡ false)
