-- ===== src/Client/Silence.antt =====
-- src/agfs.cpp: what FUSE is told when a server does not answer, though its connection is up.
use ag_fs.Base.{ℕ, ◌≡◌, ◌⊎◌, refl, true, [], ◌∷◌, ◌++◌, none, some, ℤ, pos, negsuc, inl, inr}
use ag_fs.Monad.{◌>>=◌}
use ag_fs.Os.{Os}
use ag_fs.Stat.{Stat, zero_stat}
use ag_fs.Text.{Text, codes}
use ag_fs.SortedMap
use ag_fs.Io.Faults.{Gone}
use ag_fs.Connection.{ServerConnection, connected, getattr}
use ag_fs.Connection.Silence.{IsBlank, getattr_gone, readdir_gone, open_path_gone, read_file_gone}
use ag_fs.Disambiguater.{ambiguate, add_filepaths, disambiguated_filepaths_with_stats}
use ag_fs.Client.{Connections, FileHandle, connected_entry}
use ag_fs.Client.Attributes.{agfs_getattr, first_getattr}
use ag_fs.Client.Attributes.First.{Failed, first_getattr_found}
use ag_fs.Client.Contents.{agfs_open, agfs_read, choose}
use ag_fs.Client.Directories.{Filled, agfs_readdir}

-- What agfs_readdir always fills in.
abbrev pub dots : Filled
dots = (codes ".", none) ∷ (codes "..", none) ∷ []

module _ (os : Os) (connections : Connections) (s : os.State) where
  -- The operations on a name with a server that is connected and never answers.
  module _ (c : ServerConnection) (path : Text) (up : connected c ≡ true)
      (gone : Gone os c.socket) where
    agfs_getattr_silent :
        SortedMap.find (ambiguate path).0 connections ≡ some c
        → ((agfs_getattr os connections path s).0.0 ≡ pos 0)
          × IsBlank (agfs_getattr os connections path s).0.1
    unfolding agfs_getattr ◌>>=◌
    agfs_getattr_silent found =
        let got = getattr_gone os c gone (ambiguate path).1 s in rw (found, up, got.0) (refl, got.1)

    agfs_readdir_silent :
        SortedMap.find (ambiguate path).0 connections ≡ some c
        → (agfs_readdir os connections path s).0 ≡ (pos 0, dots)
    unfolding agfs_readdir add_filepaths disambiguated_filepaths_with_stats ◌>>=◌
    agfs_readdir_silent found = rw (found, readdir_gone os c gone (ambiguate path).1 s) refl

    agfs_open_silent :
        (b : ℕ) (host : Text) (flags : ℕ)
        → (ambiguate path).0 ≡ b ∷ host
        → SortedMap.find (b ∷ host) connections ≡ some c
        → (agfs_open os connections path flags s).0
          ≡ (pos 0, some (record { server = b ∷ host; file = (ambiguate path).1 }))
    unfolding agfs_open ◌>>=◌
    agfs_open_silent b host flags named found =
        rw (named, choose, found, up, open_path_gone os c gone (ambiguate path).1 flags s) refl

  agfs_read_silent :
      (c : ServerConnection) (handle : FileHandle) (size offset : ℕ)
      → connected c ≡ true
      → Gone os c.socket
      → SortedMap.find handle.server connections ≡ some c
      → let r = (agfs_read os connections handle size offset s).0 in
        (r.1 ≡ []) × ((r.0 ≡ pos 0) ⊎ (r.0 ≡ negsuc 0))
  unfolding agfs_read ◌>>=◌
  agfs_read_silent c handle size offset up gone found =
      let got = read_file_gone os c gone handle.file size offset s in
      rw (found, up)
        (elim got.1 [
          | inl ended ↦ rw (ended, got.0) (refl, inl refl)
          | inr failed ↦ rw failed (refl, inr refl)
        ])

  -- A server is connected and never answers: every read on its socket fails or finds the end of the
  -- stream. A getattr of FUSE of a name with this server in braces still reports success, with a
  -- stat of which nothing but the device and the mode may be set; a readdir reports success and an
  -- empty directory; an open reports success and gives a handle; and a read over that handle gives
  -- no byte, and 0 or -1.
  pub agfs_unanswered :
      (c : ServerConnection) (path : Text) (b : ℕ) (host : Text) (flags size offset : ℕ)
      → connected c ≡ true
      → Gone os c.socket
      → (ambiguate path).0 ≡ b ∷ host
      → SortedMap.find (b ∷ host) connections ≡ some c
      → let attributes = (agfs_getattr os connections path s).0 in
        let handle : FileHandle = record { server = b ∷ host; file = (ambiguate path).1 } in
        let contents = (agfs_read os connections handle size offset s).0 in
        (attributes.0 ≡ pos 0)
        × IsBlank attributes.1
        × ((agfs_readdir os connections path s).0 ≡ (pos 0, dots))
        × ((agfs_open os connections path flags s).0 ≡ (pos 0, some handle))
        × (contents.1 ≡ [])
        × ((contents.0 ≡ pos 0) ⊎ (contents.0 ≡ negsuc 0))
  agfs_unanswered c path b host flags size offset up gone named found =
      let here = rw (← named) at found in
      let attributes = agfs_getattr_silent c path up gone here in
      let contents =
        agfs_read_silent c (record { server = b ∷ host; file = (ambiguate path).1 }) size offset up
          gone found in
      (
        attributes.0,
        attributes.1,
        agfs_readdir_silent c path up gone here,
        agfs_open_silent c path up gone b host flags named found,
        contents.0,
        contents.1,
      )

  -- A name without a server, or whose server is not connected. If every connection before some
  -- connection is closed or its getattr fails, and that connection is up but its server never
  -- answers, then agfs_getattr reports success, with a stat of which nothing but the device and the
  -- mode may be set, in the state that the call of that server leaves: no server behind it is asked.
  pub agfs_getattr_hidden :
      (path : Text) (host : Text) (c : ServerConnection) (before after : Connections) {r : Stat × ℤ}
      {s' : os.State}
      → connections ≡ before ++ (host, c) ∷ after
      → connected_entry (SortedMap.find (ambiguate path).0 connections) ≡ none
      → Failed os (ambiguate path).1 before (zero_stat, pos 0) s r s'
      → connected c ≡ true
      → Gone os c.socket
      → ((agfs_getattr os connections path s).0.0 ≡ pos 0)
        × IsBlank (agfs_getattr os connections path s).0.1
        × ((agfs_getattr os connections path s).1 ≡ (getattr os c (ambiguate path).1 s').1)
  unfolding agfs_getattr ◌>>=◌
  agfs_getattr_hidden path host c before after {r} {s'} shape unnamed failed up gone =
      let file = (ambiguate path).1 in
      let got = getattr_gone os c gone file s' in
      let asked : first_getattr os connections file (zero_stat, pos 0) s ≡ getattr os c file s' =
        rw shape (first_getattr_found os file host c after failed up (rw got.0 refl)) in
      rw (unnamed, asked, got.0) (refl, got.1, refl)
