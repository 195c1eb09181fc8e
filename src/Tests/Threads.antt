-- ===== src/Tests/Threads.antt =====
-- Runs of the threads that share a connection.
use ag_fs.Base.{◌+◌, ◌≤◌, ◌≡◌, ◌≢◌, refl, ap, true, [], ◌++◌, pos}
use ag_fs.Words.{little}
use ag_fs.Monad.{◌>>=◌}
use ag_fs.Constants.{cmd_accept}
use ag_fs.Text.{codes}
use ag_fs.Io.Frames.{cmd_frame}
use ag_fs.Connection.{ServerConnection, connected, stop}
use ag_fs.Connection.Connect.{dns_lookup}
use ag_fs.Connection.Greeting.{connect-Talks_accepted}
use ag_fs.Client.Threads.{testing, finished, leave, serving, System, Run, here, own, other}
use ag_fs.Client.Threads.Closing.{remaining, Next, closed_ends}
use ag_fs.Client.Threads.Reopening.{at_test, left_connected}
use ag_fs.Tests.Machine.{Machine, machine, stream, holding, unmoved}
use ag_fs.Tests.Handshake.{network, with_key}

-- A connection that is closed, one that is down, and the answer of a server that lets the client
-- in.
abbrev closed_one : ServerConnection
closed_one = record (with_key (codes "K")) { closed = true }

abbrev down : ServerConnection
down = with_key (codes "K")

abbrev accepting : Machine
accepting = holding (cmd_frame cmd_accept ++ [])

closed_ends_example :
    (1 + remaining finished ≤ remaining testing)
    × (1 ≤ 4)
    × (finished ≢ finished → Next (machine little) network closed_one accepting finished)
closed_ends_example =
    closed_ends (machine little) network
      {x = at_test (machine little) network closed_one (holding [])}
      (own (other here (serving accepting)) (leave refl)) refl

left_connected_example :
    (y : System (machine little) network) × Run
      (machine little)
      network
      (at_test (machine little) network down accepting)
      5
      y
    × (y.pc ≡ finished)
    × (y.conn.closed ≡ true)
    × (connected y.conn ≡ true)
unfolding stop connected dns_lookup ◌>>=◌
left_connected_example = left_connected (machine little) network down accepting refl refl (
    ap connected
      ((connect-Talks_accepted (machine little) network closed_one 5 (stream little (pos 5)) 0
          (unmoved little _ _ 0 (λ s. refl)) (unmoved little _ _ 0 (λ s. refl))
          (unmoved little _ _ 0 (λ s. refl))).at
        accepting [] refl refl).result)
