-- ===== src/Client/Attributes/Listed.antt =====
-- agfs_getattr of a name that stands in the merged listing, from FUSE to the server's lstat.
use ag_fs.Base.{
  ℕ, ◌^◌, ◌<◌, ◌≡◌, refl, true, List, ◌∷◌, ◌++◌, length, none, some, ℤ, pos, is_neg, if◌then◌else◌,
}
use ag_fs.Monad.{M, pure}
use ag_fs.Os.{Os}
use ag_fs.Os.Stream.{Stream, Reached, Talks, Talks-pure, Talks-last, Quiet}
use ag_fs.Stat.{Stat, zero_stat, FitsStat, sent_part}
use ag_fs.Text.{Text, find}
use ag_fs.SortedMap
use ag_fs.Io.Frames.{IsText}
use ag_fs.Disambiguater.{begin_brace, end_brace}
use ag_fs.Disambiguater.Listing.{shown, ambiguate-shown}
use ag_fs.Connection.{ServerConnection, connected}
use ag_fs.Connection.Calls.{getattr-Talks}
use ag_fs.Client.{Connections, to_int}
use ag_fs.Client.Attributes.{agfs_getattr}
use ag_fs.Server.{Files, ClientConnection}
use ag_fs.Server.Handlers.Answers.{process_get_attr-Talks}
use ag_fs.Server.Commands.{command_round}
use ag_fs.Server.Commands.Rounds.{round_getattr}
use ag_fs.Protocol.{getattr_request, getattr_reply}

-- What agfs_getattr makes of the result of a connection.
abbrev answer : {S : Type 0} → Stat × ℤ → M S (ℤ × Stat)
answer (st, error) = pure (to_int error, if is_neg error then zero_stat else st)

agfs_getattr-Talks :
    (os : Os) (connections : Connections) (c : ServerConnection) {W : Type 0}
    (t : Stream os c.socket W) (w : W) (dir path server : Text) (a b : Text × Stat)
    (more : List (Text × Stat)) (st : Stat)
    → find begin_brace (dir ++ path) ≡ none
    → find end_brace ((dir ++ path) ++ (begin_brace ++ server)) ≡ none
    → length server < 2 ^ 64
    → SortedMap.find server connections ≡ some c
    → connected c ≡ true
    → FitsStat st
    → Talks t.ends
        (agfs_getattr os connections (dir ++ shown path (a ∷ b ∷ more) server))
        w
        (getattr_reply st)
        (getattr_request (dir ++ path))
        (pos 0, sent_part st)
        w
unfolding agfs_getattr
agfs_getattr-Talks os connections c t w dir path server a b more st no_begin no_end short found up
      fits =
    rw (ambiguate-shown dir path server (a ∷ b ∷ more) no_begin no_end short, found, up)
      (Talks-last answer (getattr-Talks os c t w (dir ++ path) st fits) (Talks-pure _))

module _ (client host : Os) (files : Files host) (connections : Connections) (c : ServerConnection)
    (d : ClientConnection) {W V : Type 0} (t : Stream client c.socket W)
    (u : Stream host d.socket V) (s : client.State) (s' : host.State) (rest rest' : List ℕ)
    (dir path server : Text) (a b : Text × Stat) (more : List (Text × Stat)) where
  -- A file that several servers have is listed once for each of them, with the server in braces.
  -- For directory, file and server without braces, and a server that is connected: where each end
  -- finds what the other writes, agfs_getattr of the listed name asks exactly this server, for the
  -- file without braces, and gives FUSE the sent members of the stat that the server's lstat found.
  pub agfs_getattr_remote :
      (st : Stat) {v' : V}
      → find begin_brace (dir ++ path) ≡ none
      → find end_brace ((dir ++ path) ++ (begin_brace ++ server)) ≡ none
      → length server < 2 ^ 64
      → SortedMap.find server connections ≡ some c
      → connected c ≡ true
      → IsText (dir ++ path)
      → FitsStat st
      → Quiet u.ends
          (files.lstat (files.join d.mount_point (dir ++ path)))
          (u.ends.view s')
          (some st)
          v'
      → t.ends.inbox s ≡ getattr_reply st ++ rest
      → u.ends.inbox s' ≡ getattr_request (dir ++ path) ++ rest'
      → Reached t.ends
          (agfs_getattr client connections (dir ++ shown path (a ∷ b ∷ more) server))
          s
          rest
          (getattr_request (dir ++ path))
          (pos 0, sent_part st)
          (t.ends.view s)
        × Reached u.ends (command_round host files d) s' rest' (getattr_reply st) (true, d) v'
  agfs_getattr_remote st no_begin no_end short found up text fits stated hc hs = (
    (agfs_getattr-Talks client connections c t (t.ends.view s) dir path server a b more st no_begin
          no_end short found up fits).at
        s rest refl hc,
    (round_getattr host files d u
          (process_get_attr-Talks host files d u (dir ++ path) text st stated)).at
        s' rest' refl hs,
  )
