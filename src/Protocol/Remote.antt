-- ===== src/Protocol/Remote.antt =====
-- A call of the client against a round of the server: what the one writes is what the other reads.
-- `s` is the client's machine and `s'` the server's. Each end finds on its stream what the other
-- end writes, and bytes of later conversations behind it.
use ag_fs.Base.{
  ℕ, suc, ◌^◌, ◌<◌, ◌≡◌, refl, Bool, true, false, List, [], ◌++◌, length, All, some, none, ℤ, pos,
  negsuc, neg, arith,
}
use ag_fs.Words.Laws.{IsInt64}
use ag_fs.Os.{Os}
use ag_fs.Os.Stream.{Stream, Reached, Quiet, Errno}
use ag_fs.Constants.{enotdir}
use ag_fs.Stat.{Stat, zero_stat, FitsStat, sent_part}
use ag_fs.Text.{Text}
use ag_fs.Io.Frames.{IsText, error_frame}
use ag_fs.Connection.{ServerConnection, getattr, access, readdir}
use ag_fs.Connection.Calls.{
  sent_entries, IsEntry, getattr-Talks, getattr-Talks_failed, access-Talks, readdir-Talks,
  readdir-Talks_failed,
}
use ag_fs.Server.{Files, ClientConnection}
use ag_fs.Server.Handlers.Answers.{
  process_get_attr-Talks, process_get_attr-Talks_missing, process_access-Talks,
}
use ag_fs.Server.Handlers.Readdir.{
  StatsOf, names_of, process_readdir-Talks, process_readdir-Talks_failed,
}
use ag_fs.Server.Commands.{command_round}
use ag_fs.Server.Commands.Rounds.{round_getattr, round_access, round_readdir}
use ag_fs.Protocol.{getattr_request, getattr_reply, access_request, readdir_request, readdir_reply}

module _ (client host : Os) (files : Files host) (c : ServerConnection) (d : ClientConnection)
    {W V : Type 0} (t : Stream client c.socket W) (u : Stream host d.socket V) (s : client.State)
    (s' : host.State) (rest rest' : List ℕ) (path : Text) (text : IsText path) (v' : V) where
  -- A getattr of the client against one round of the server, for a path that lstat finds, with a
  -- stat whose members fit their widths, and where each end finds what the other writes: the server
  -- reads exactly the request that the client writes, the client reads exactly the answer that the
  -- server writes, and has error 0 and the six sent members of the stat; the server goes on.
  pub getattr_remote :
      (st : Stat)
      → FitsStat st
      → Quiet u.ends (files.lstat (files.join d.mount_point path)) (u.ends.view s') (some st) v'
      → t.ends.inbox s ≡ getattr_reply st ++ rest
      → u.ends.inbox s' ≡ getattr_request path ++ rest'
      → Reached t.ends
          (getattr client c path)
          s
          rest
          (getattr_request path)
          (sent_part st, pos 0)
          (t.ends.view s)
        × Reached u.ends (command_round host files d) s' rest' (getattr_reply st) (true, d) v'
  getattr_remote st fits found hc hs = (
    (getattr-Talks client c t (t.ends.view s) path st fits).at s rest refl hc,
    (round_getattr host files d u (process_get_attr-Talks host files d u path text st found)).at s'
        rest' refl hs,
  )

  -- A getattr of a path whose lstat fails, where each end finds what the other writes: the client
  -- has a zeroed stat and the server's -errno, and the server goes on.
  pub getattr_remote_missing :
      (n : ℕ)
      → suc n < 2 ^ 63
      → Quiet u.ends (files.lstat (files.join d.mount_point path)) (u.ends.view s') none v'
      → Errno host u.ends v' (suc n)
      → t.ends.inbox s ≡ error_frame (negsuc n) ++ rest
      → u.ends.inbox s' ≡ getattr_request path ++ rest'
      → Reached t.ends
          (getattr client c path)
          s
          rest
          (getattr_request path)
          (zero_stat, negsuc n)
          (t.ends.view s)
        × Reached u.ends (command_round host files d) s' rest' (error_frame (negsuc n)) (true, d) v'
  getattr_remote_missing n lt missing errno hc hs = (
    (getattr-Talks_failed client c t (t.ends.view s) path n (omega arith)).at s rest refl hc,
    (round_getattr host files d u
          (process_get_attr-Talks_missing host files d u path text n missing errno)).at
        s' rest' refl hs,
  )

  -- An access of the client, where each end finds what the other writes: the client's result is
  -- what the server's access returned for the path and a mask of 32 bits, and the server goes on.
  pub access_remote :
      (mask : ℕ) (err : ℤ)
      → mask < 2 ^ 32
      → IsInt64 err
      → Quiet u.ends (files.access (files.join d.mount_point path) mask) (u.ends.view s') err v'
      → t.ends.inbox s ≡ error_frame err ++ rest
      → u.ends.inbox s' ≡ access_request path mask ++ rest'
      → Reached t.ends
          (access client c path mask)
          s
          rest
          (access_request path mask)
          err
          (t.ends.view s)
        × Reached u.ends (command_round host files d) s' rest' (error_frame err) (true, d) v'
  access_remote mask err lt fits allowed hc hs = (
    (access-Talks client c t (t.ends.view s) path mask err fits).at s rest refl hc,
    (round_access host files d u
          (process_access-Talks host files d u path text mask err lt allowed)).at
        s' rest' refl hs,
  )

module _ (client host : Os) (files : Files host) (c : ServerConnection) (d : ClientConnection)
    {W V : Type 0} (t : Stream client c.socket W) (u : Stream host d.socket V) (s : client.State)
    (s' : host.State) (rest rest' : List ℕ) (path : Text) (text : IsText path) where
  -- A readdir of the client against one round of the server, for a directory that does not change
  -- meanwhile, with entries that fit the protocol, and where each end finds what the other writes:
  -- each end reads exactly what the other writes, the client has the names of all entries, in the
  -- server's order, each with the sent members of its stat, and the server goes on.
  pub readdir_remote :
      (entries : List (Text × Stat))
      → All IsEntry entries
      → length entries < 2 ^ 64
      → Quiet u.ends
          (files.exists (files.join d.mount_point path))
          (u.ends.view s')
          true
          (u.ends.view s')
      → Quiet u.ends
          (files.is_directory (files.join d.mount_point path))
          (u.ends.view s')
          true
          (u.ends.view s')
      → Quiet u.ends
          (files.entries (files.join d.mount_point path))
          (u.ends.view s')
          (names_of entries)
          (u.ends.view s')
      → StatsOf host files u.ends (files.join d.mount_point path) (u.ends.view s') entries
      → t.ends.inbox s ≡ readdir_reply entries ++ rest
      → u.ends.inbox s' ≡ readdir_request path ++ rest'
      → Reached t.ends
          (readdir client c path)
          s
          rest
          (readdir_request path)
          (sent_entries entries, pos 0)
          (t.ends.view s)
        × Reached u.ends
            (command_round host files d)
            s'
            rest'
            (readdir_reply entries)
            (true, d)
            (u.ends.view s')
  readdir_remote entries fits lt there directory listed stats hc hs = (
    (readdir-Talks client c t (t.ends.view s) path entries fits lt).at s rest refl hc,
    (round_readdir host files d u (
          process_readdir-Talks host files d u _ path text entries there directory listed stats)).at
        s' rest' refl hs,
  )

  -- A readdir of what is no directory, where each end finds what the other writes, gives the client
  -- -ENOTDIR, also where the path does not exist, and the server goes on.
  pub readdir_remote_failed :
      (there : Bool)
      → Quiet u.ends
          (files.exists (files.join d.mount_point path))
          (u.ends.view s')
          there
          (u.ends.view s')
      → Quiet u.ends
          (files.is_directory (files.join d.mount_point path))
          (u.ends.view s')
          false
          (u.ends.view s')
      → t.ends.inbox s ≡ error_frame (neg enotdir) ++ rest
      → u.ends.inbox s' ≡ readdir_request path ++ rest'
      → Reached t.ends
          (readdir client c path)
          s
          rest
          (readdir_request path)
          ([], neg enotdir)
          (t.ends.view s)
        × Reached u.ends
            (command_round host files d)
            s'
            rest'
            (error_frame (neg enotdir))
            (true, d)
            (u.ends.view s')
  readdir_remote_failed there found directory hc hs = (
    (readdir-Talks_failed client c t (t.ends.view s) path 19 (omega arith)).at s rest refl hc,
    (round_readdir host files d u
          (process_readdir-Talks_failed host files d u _ path text there found directory)).at
        s' rest' refl hs,
  )
