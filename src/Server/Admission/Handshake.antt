-- ===== src/Server/Admission/Handshake.antt =====
-- The constructor of the server's ClientConnection on the stream.
use ag_fs.Base.{
  ℕ, ◌+◌, ◌≤◌, ◌≡◌, ◌≢◌, true, List, [], ◌++◌, length, Option, none, some, ℤ, pos, negsuc,
}
use ag_fs.Os.{Os}
use ag_fs.Os.Stream.{Stream, Talks, Talks-pure, Talks-bind, Talks-last, Talks-then_write, Quiet}
use ag_fs.Constants.{cmd_invalid_key}
use ag_fs.Text.{Text}
use ag_fs.Io.Frames.{IsText, cmd_frame, string_frame}
use ag_fs.Io.Send.{agfs_write_cmd-Talks}
use ag_fs.Io.Receive.{agfs_read_string-Talks}
use ag_fs.Server.{Files, ClientConnection, connected}
use ag_fs.Server.Keys.Extract.{words}
use ag_fs.Server.Keys.Scan.{granted, find_key_lem}
use ag_fs.Server.Commands.{process_commands}
use ag_fs.Server.Admission.{
  User, Accounts, turn_away, admit, client_connection, serve_client, server_block_sec,
  server_block_usec,
}

abbrev pub turned_away : ℕ → ClientConnection
turned_away raw = record { mount_point = []; socket = negsuc 0; beats_missed = raw }

abbrev pub admitted : Text → ℤ → ClientConnection
admitted mount_path connfd = record { mount_point = mount_path; socket = connfd; beats_missed = 0 }

module _ (os : Os) (files : Files os) (accounts : Accounts os) (raw n : ℕ) {V : Type 0}
    (u : Stream os (pos n) V) (v : V) where
  turn_away-Talks :
      (cmd : ℕ)
      → Talks u.ends
          (turn_away os files accounts raw (pos n) cmd)
          v
          []
          (cmd_frame cmd)
          (turned_away raw)
          v
  unfolding turn_away
  turn_away-Talks cmd =
      Talks-last _ (agfs_write_cmd-Talks os u v cmd)
        (Talks-bind _ (u.close_succeeds v) (Talks-pure _))

  admit-Talks :
      (mount user : Text) (account : User) (code code' : ℤ)
      → Quiet u.ends (accounts.getpwnam user) v (some account) v
      → Quiet u.ends (accounts.setuid account.pw_uid) v code v
      → Quiet u.ends (accounts.setgid account.pw_gid) v code' v
      → Quiet u.ends (files.exists mount) v true v
      → Quiet u.ends
          (admit os files accounts raw (pos n) (some (mount, user)))
          v
          (admitted mount (pos n))
          v
  unfolding admit
  admit-Talks mount user account code code' known uid gid there =
      Talks-bind _ known (Talks-bind _ uid (Talks-bind _ gid (Talks-bind _ there (Talks-pure _))))

  module _ (fuel : ℕ) (key contents : Text) (text : IsText key) (some_key : key ≢ [])
      (enough : length (words contents) + 2 ≤ fuel)
      (timed : Quiet u.ends
        (accounts.set_timeout (pos n) server_block_sec server_block_usec)
        v
        tt
        v)
      (blocking : Quiet u.ends (accounts.set_blocking (pos n)) v tt v)
      (listed : Quiet u.ends accounts.key_list v (some contents) v) where
    -- The constructor reads the key, and goes on with what the list says of it.
    client_connection-Talks :
        {o : List ℕ} {c : ClientConnection}
        → Talks u.ends
            (admit os files accounts raw (pos n) (granted key (words contents)))
            v
            []
            o
            c
            v
        → Talks u.ends
            (client_connection os files accounts raw fuel (pos n))
            v
            (string_frame key)
            o
            (some c)
            v
    unfolding client_connection
    client_connection-Talks goes_on = Talks-bind _ timed (
        Talks-bind _ blocking (
          Talks-then_write _ (agfs_read_string-Talks os u v key [] text) (
            Talks-bind _ listed (
              rw (find_key_lem fuel key contents some_key enough)
                (Talks-last _ goes_on (Talks-pure _))))))

    module _ (lfd : ℤ) (code : ℤ) (rounds : ℕ)
        (unlistened : Quiet u.ends (os.close lfd) v code v) where
      pub serve_client-Talks_refused :
          granted key (words contents) ≡ none
          → Talks u.ends
              (serve_client os files accounts raw fuel rounds lfd (pos n))
              v
              (string_frame key)
              (cmd_frame cmd_invalid_key)
              (some (turned_away raw))
              v
      unfolding serve_client admit connected
      serve_client-Talks_refused no_key = Talks-bind _ unlistened (
          Talks-last _
            (client_connection-Talks {c = turned_away raw}
              (rw no_key (turn_away-Talks cmd_invalid_key)))
            (Talks-pure _))

      -- A client that is let in is served.
      pub serve_client-Talks_let_in :
          {v' : V} {i o : List ℕ} {r : Option ClientConnection} (mount user : Text) (account : User)
          (code₁ code₂ : ℤ)
          → granted key (words contents) ≡ some (mount, user)
          → Quiet u.ends (accounts.getpwnam user) v (some account) v
          → Quiet u.ends (accounts.setuid account.pw_uid) v code₁ v
          → Quiet u.ends (accounts.setgid account.pw_gid) v code₂ v
          → Quiet u.ends (files.exists mount) v true v
          → Talks u.ends (process_commands os files rounds (admitted mount (pos n))) v i o r v'
          → Talks u.ends
              (serve_client os files accounts raw fuel rounds lfd (pos n))
              v
              (string_frame key ++ i)
              o
              r
              v'
      unfolding serve_client connected
      serve_client-Talks_let_in mount user account code₁ code₂ found known uid gid there serves =
          Talks-bind _ unlistened (
            Talks-bind _
              (client_connection-Talks {o = []} {c = admitted mount (pos n)}
                (rw found (admit-Talks mount user account code₁ code₂ known uid gid there)))
              serves)
