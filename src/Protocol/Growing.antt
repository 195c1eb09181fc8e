-- ===== src/Protocol/Growing.antt =====
-- A readdir of a directory that gains entries between the two walks that the server makes over it.
-- `s` is the client's machine and `s'` the server's.
use ag_fs.Base.{
  ℕ, ◌^◌, ◌<◌, ◌≡◌, refl, ◌∙◌, ap, true, List, [], ◌∷◌, ◌++◌, length, All, append_assoc, ℤ, pos,
  arith,
}
use ag_fs.Words.{be_bytes, to_word}
use ag_fs.Monad.{M, pure, ◌>>=◌}
use ag_fs.Os.{Os}
use ag_fs.Os.Stream.{Stream, Reached, Quiet, Talks-pure, Talks-bind, Talks-last}
use ag_fs.Stat.{Stat}
use ag_fs.Text.{Text}
use ag_fs.Io.Frames.{IsText, error_frame, size_frame, stat_frame}
use ag_fs.Connection.{ServerConnection, access, readdir}
use ag_fs.Connection.Calls.{sent_entries, IsEntry, access-Talks, readdir-Talks}
use ag_fs.Server.{Files, ClientConnection}
use ag_fs.Server.Handlers.Readdir.{StatsOf, names_of, process_readdir-Talks_walks}
use ag_fs.Server.Commands.{command_round}
use ag_fs.Server.Commands.Rounds.{round_readdir}
use ag_fs.Protocol.{readdir_request, readdir_reply, access_request, entries_frame}

entries_frame-append :
    (xs ys : List (Text × Stat)) → entries_frame (xs ++ ys) ≡ entries_frame xs ++ entries_frame ys
entries_frame-append [] ys = refl
entries_frame-append ((name, st) ∷ xs) ys = simp (entries_frame-append xs ys, append_assoc)

-- A length and an error that is not negative look the same on the wire.
size_frame-error_frame : (n : ℕ) → n < 2 ^ 63 → size_frame n ≡ error_frame (pos n)
unfolding to_word
size_frame-error_frame n lt = ap (be_bytes 8) (omega arith)

-- What the server sends where it announces `count` entries.
abbrev pub announced_reply : ℕ → List (Text × Stat) → List ℕ
announced_reply count entries = error_frame (pos 0) ++ (size_frame count ++ entries_frame entries)

announced_reply-split :
    (known extra : List (Text × Stat)) (name : Text) (st : Stat) (rest : List ℕ)
    → length name < 2 ^ 63
    → announced_reply (length known) (known ++ (name, st) ∷ extra) ++ rest
      ≡ (readdir_reply known ++ error_frame (pos (length name)))
        ++ (name ++ (stat_frame st ++ (entries_frame extra ++ rest)))
announced_reply-split known extra name st rest small =
    rw (← size_frame-error_frame (length name) small, entries_frame-append) (simp append_assoc)

-- Two calls of a client, one after the other.
abbrev pub readdir_access :
    (os : Os) → ServerConnection → Text → Text → ℕ → M os.State ((List (Text × Stat) × ℤ) × ℤ)
readdir_access os c path other mask = do
  found ← readdir os c path
  code ← access os c other mask
  pure (found, code)

module _ (client host : Os) (files : Files host) (c : ServerConnection) (d : ClientConnection)
    {W V : Type 0} (t : Stream client c.socket W) (u : Stream host d.socket V) (s : client.State)
    (s' : host.State) (rest rest' : List ℕ) (path other : Text) (text : IsText path)
    {v₁ v₂ : V} where
  -- The server's first walk over a directory finds as many entries as `known` has, and its second
  -- walk those of `known`, then one more and perhaps others: it announces the entries of `known` and
  -- sends all, and goes on. Where each end finds what the other writes, the client's readdir gives
  -- the entries of `known` with error 0, and the rest of the answer is still to be read. An access
  -- that the client asks next, for whatever path and mask, takes the length of the next entry's name
  -- for its answer, so it counts as granted, and the rest of that entry is still to be read.
  pub readdir_grown :
      (known extra : List (Text × Stat)) (name : Text) (st : Stat) (counted : List Text) (mask : ℕ)
      → All IsEntry known
      → length known < 2 ^ 64
      → length name < 2 ^ 63
      → length counted ≡ length known
      → Quiet u.ends
          (files.exists (files.join d.mount_point path))
          (u.ends.view s')
          true
          (u.ends.view s')
      → Quiet u.ends
          (files.is_directory (files.join d.mount_point path))
          (u.ends.view s')
          true
          (u.ends.view s')
      → Quiet u.ends (files.entries (files.join d.mount_point path)) (u.ends.view s') counted v₁
      → Quiet u.ends
          (files.entries (files.join d.mount_point path))
          v₁
          (names_of (known ++ (name, st) ∷ extra))
          v₂
      → StatsOf host files u.ends (files.join d.mount_point path) v₂ (known ++ (name, st) ∷ extra)
      → t.ends.inbox s ≡ announced_reply (length known) (known ++ (name, st) ∷ extra) ++ rest
      → u.ends.inbox s' ≡ readdir_request path ++ rest'
      → Reached t.ends
          (readdir_access client c path other mask)
          s
          (name ++ (stat_frame st ++ (entries_frame extra ++ rest)))
          (readdir_request path ++ access_request other mask)
          ((sent_entries known, pos 0), pos (length name))
          (t.ends.view s)
        × Reached u.ends
            (command_round host files d)
            s'
            rest'
            (announced_reply (length known) (known ++ (name, st) ∷ extra))
            (true, d)
            v₂
  readdir_grown known extra name st counted mask fits lt small same there directory first second
        stats hc hs =
      let w = t.ends.view s in
      let both =
        Talks-bind (λ found. access client c other mask >>= λ code. pure (found, code))
          (readdir-Talks client c t w path known fits lt)
          (Talks-last (λ code. pure ((sent_entries known, pos 0), code))
            (access-Talks client c t w other mask (pos (length name)) (omega arith))
            (Talks-pure _)) in
      let walks =
        process_readdir-Talks_walks host files d u _ path text counted (known ++ (name, st) ∷ extra)
          there directory first second stats in
      (
        both.at s _ refl (hc ∙ announced_reply-split known extra name st rest small),
        (round_readdir host files d u (rw same at walks)).at s' rest' refl hs,
      )
