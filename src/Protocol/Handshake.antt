-- ===== src/Protocol/Handshake.antt =====
-- A client that connects against the process that the server forks for it. `s` is the client's
-- machine and `s'` the server's.
use ag_fs.Base.{
  ℕ, ◌+◌, ◌≤◌, ◌<◌, ◌≡◌, ◌≢◌, refl, List, [], ◌++◌, length, none, some, true, ℤ, pos, negsuc, arith,
}
use ag_fs.Os.{Os}
use ag_fs.Os.Stream.{Stream, Reached, Quiet}
use ag_fs.Constants.{cmd_stop, cmd_accept, cmd_invalid_key}
use ag_fs.Text.{Text}
use ag_fs.Io.Frames.{IsText, cmd_frame, string_frame}
use ag_fs.Connection.{ServerConnection}
use ag_fs.Connection.Connect.{Network, connect, dns_lookup, client_block_sec, client_block_usec}
use ag_fs.Connection.Greeting.{connect-Talks_refused}
use ag_fs.Server.{Files}
use ag_fs.Server.Keys.Extract.{words}
use ag_fs.Server.Keys.Scan.{granted}
use ag_fs.Server.Admission.{User, Accounts, serve_client, server_block_sec, server_block_usec}
use ag_fs.Server.Admission.Handshake.{
  admitted, serve_client-Talks_refused, serve_client-Talks_let_in,
}
use ag_fs.Protocol.Session.{Result, Call, session}
use ag_fs.Protocol.Session.Served.{AllServed}
use ag_fs.Protocol.Session.Client.{session-Talks}
use ag_fs.Protocol.Session.Server.{process_commands-AllServed}

module _ (client host : Os) (net : Network client) (files : Files host) (accounts : Accounts host)
    (c : ServerConnection) (n m raw fuel rounds : ℕ) (lfd code : ℤ) {W V : Type 0}
    (t : Stream client (pos n) W) (u : Stream host (pos m) V) (s : client.State) (s' : host.State)
    (rest rest' : List ℕ) (contents : Text) (text : IsText c.key) (some_key : c.key ≢ [])
    (enough : length (words contents) + 2 ≤ fuel)
    (found : Quiet t.ends (dns_lookup client net c c.port) (t.ends.view s) (pos n) (t.ends.view s))
    (timed : Quiet t.ends
      (net.set_timeout (pos n) client_block_sec client_block_usec)
      (t.ends.view s)
      tt
      (t.ends.view s))
    (blocking : Quiet t.ends (net.set_blocking (pos n)) (t.ends.view s) tt (t.ends.view s))
    (timed' : Quiet u.ends
      (accounts.set_timeout (pos m) server_block_sec server_block_usec)
      (u.ends.view s')
      tt
      (u.ends.view s'))
    (blocking' : Quiet u.ends (accounts.set_blocking (pos m)) (u.ends.view s') tt (u.ends.view s'))
    (listed : Quiet u.ends accounts.key_list (u.ends.view s') (some contents) (u.ends.view s'))
    (unlistened : Quiet u.ends (host.close lfd) (u.ends.view s') code (u.ends.view s')) where
  -- A client whose key stands in no record of the server's list is turned away: where each end
  -- finds what the other writes, and the key is not empty, the server reads the key and answers
  -- INVALID_KEY, its process ends, and the client ends with its socket closed and marked so.
  pub handshake_refused :
      granted c.key (words contents) ≡ none
      → t.ends.inbox s ≡ cmd_frame cmd_invalid_key ++ rest
      → u.ends.inbox s' ≡ string_frame c.key ++ rest'
      → Reached t.ends
          (connect client net c)
          s
          rest
          (string_frame c.key)
          (record c { socket = negsuc 0 })
          (t.ends.view s)
        × Reached u.ends
            (serve_client host files accounts raw fuel rounds lfd (pos m))
            s'
            rest'
            (cmd_frame cmd_invalid_key)
            (some (record { mount_point = []; socket = negsuc 0; beats_missed = raw }))
            (u.ends.view s')
  handshake_refused no_key hc hs = (
    (connect-Talks_refused client net c n t (t.ends.view s) found timed blocking cmd_invalid_key
          (omega arith) refl).at
        s rest refl hc,
    (serve_client-Talks_refused host files accounts raw m u (u.ends.view s') fuel c.key contents
          text some_key enough timed' blocking' listed lfd code rounds unlistened no_key).at
        s' rest' refl hs,
  )

  -- A client whose key, which is not empty, stands in the server's list, and whose record there
  -- names a user that exists and a mount point that exists, connects, makes any number of calls,
  -- each served in one of the ways of Protocol/Session/Served, and stops: where each end finds
  -- what the other writes, each reads exactly what the other writes, every call has the result
  -- that the calls of the server's system give it, and in the end both have closed their sockets
  -- and the server's process has ended, within one round more than there are calls.
  pub session_served :
      {v' : V} {calls : List Call} {requests replies : List ℕ} {results : List Result}
      (mount user : Text) (account : User) (code₁ code₂ : ℤ)
      → granted c.key (words contents) ≡ some (mount, user)
      → Quiet u.ends (accounts.getpwnam user) (u.ends.view s') (some account) (u.ends.view s')
      → Quiet u.ends (accounts.setuid account.pw_uid) (u.ends.view s') code₁ (u.ends.view s')
      → Quiet u.ends (accounts.setgid account.pw_gid) (u.ends.view s') code₂ (u.ends.view s')
      → Quiet u.ends (files.exists mount) (u.ends.view s') true (u.ends.view s')
      → length calls < rounds
      → AllServed host files mount u.ends (u.ends.view s') calls requests replies results v'
      → t.ends.inbox s ≡ (cmd_frame cmd_accept ++ replies) ++ rest
      → u.ends.inbox s' ≡ (string_frame c.key ++ (requests ++ cmd_frame cmd_stop)) ++ rest'
      → Reached t.ends
          (session client net c calls)
          s
          rest
          (string_frame c.key ++ (requests ++ cmd_frame cmd_stop))
          (results, (pos 0, record c { socket = negsuc 0; closed = true }))
          (t.ends.view s)
        × Reached u.ends
            (serve_client host files accounts raw fuel rounds lfd (pos m))
            s'
            rest'
            (cmd_frame cmd_accept ++ replies)
            (some (record { mount_point = mount; socket = negsuc 0; beats_missed = 0 }))
            v'
  session_served mount user account code₁ code₂ has_key known uid gid there calls_fit served hc hs =
      (
        (session-Talks client host files mount u.ends net c n t (t.ends.view s) found timed blocking
              served).at
            s rest refl hc,
        (serve_client-Talks_let_in host files accounts raw m u (u.ends.view s') fuel c.key contents
              text some_key enough timed' blocking' listed lfd code rounds unlistened mount user
              account code₁ code₂ has_key known uid gid there
              (process_commands-AllServed host files (admitted mount (pos m)) u rounds calls_fit
                served)).at
            s' rest' refl hs,
      )
