-- ===== src/Server/Handlers/Readdir.antt =====
-- src/agfs-server.cpp: what the handler of READDIR answers.
use ag_fs.Base.{Bool, true, false, List, [], ◌∷◌, ◌++◌, length, length-map, map, some, pos, neg}
use ag_fs.Os.{Os}
use ag_fs.Os.Stream.{
  Ends, Stream, Talks, Talks-pure, Talks-bind, Talks-last, Talks-then_write, Quiet,
}
use ag_fs.Constants.{enotdir}
use ag_fs.Stat.{Stat}
use ag_fs.Text.{Text}
use ag_fs.Io.Frames.{IsText, error_frame, size_frame, string_frame}
use ag_fs.Io.Send.{
  agfs_write_error-Talks, agfs_write_size-Talks, agfs_write_string-Talks, agfs_write_stat-Talks,
}
use ag_fs.Protocol.{readdir_reply, entries_frame}
use ag_fs.Server.{Files, ClientConnection}
use ag_fs.Server.Handlers.Answers.{read_file_path-Talks}
use ag_fs.Server.Handlers.{write_entries, process_readdir}

-- lstat of every entry of a directory gives its stat.
abbrev pub StatsOf :
    (os : Os) (files : Files os) {V : Type 0}
    → Ends os.State V
    → Text
    → V
    → List (Text × Stat)
    → Type 0
StatsOf os files E dir v [] = Unit
StatsOf os files E dir v ((name, st) ∷ entries) =
    Quiet E (files.lstat (files.join dir name)) v (some st) v × StatsOf os files E dir v entries

abbrev pub names_of : List (Text × Stat) → List Text
names_of = map (λ (name, st). name)

module _ (os : Os) (files : Files os) (c : ClientConnection) {V : Type 0}
    (t : Stream os c.socket V) where
  write_entries-Talks :
      (v : V) (dir : Text) (entries : List (Text × Stat))
      → StatsOf os files t.ends dir v entries
      → Talks t.ends
          (write_entries os files c.socket dir (names_of entries))
          v
          []
          (entries_frame entries)
          tt
          v
  unfolding write_entries
  write_entries-Talks v dir [] stats = Talks-pure _
  write_entries-Talks v dir ((name, st) ∷ entries) stats =
      Talks-bind _ (agfs_write_string-Talks os t v name) (
        Talks-bind _ stats.0 (
          Talks-bind _ (agfs_write_stat-Talks os t v st)
            (write_entries-Talks v dir entries stats.1)))

  module _ (v : V) (path : Text) (text : IsText path) where
    -- The directory is walked twice: the first walk gives the number of entries that is announced,
    -- the second the entries that are sent.
    pub process_readdir-Talks_walks :
        {v₁ v₂ : V} (counted : List Text) (entries : List (Text × Stat))
        → Quiet t.ends (files.exists (files.join c.mount_point path)) v true v
        → Quiet t.ends (files.is_directory (files.join c.mount_point path)) v true v
        → Quiet t.ends (files.entries (files.join c.mount_point path)) v counted v₁
        → Quiet t.ends (files.entries (files.join c.mount_point path)) v₁ (names_of entries) v₂
        → StatsOf os files t.ends (files.join c.mount_point path) v₂ entries
        → Talks t.ends
            (process_readdir os files c)
            v
            (string_frame path)
            (error_frame (pos 0) ++ (size_frame (length counted) ++ entries_frame entries))
            tt
            v₂
    unfolding process_readdir
    process_readdir-Talks_walks {v₁} {v₂} counted entries there directory first second stats =
        Talks-then_write _ (read_file_path-Talks os files c t path text v) (
          Talks-bind _ there (
            Talks-bind _ directory (
              Talks-bind _ (agfs_write_error-Talks os t v (pos 0)) (
                Talks-bind _ first (
                  Talks-bind _ (agfs_write_size-Talks os t v₁ (length counted))
                    (Talks-bind _ second (write_entries-Talks v₂ _ entries stats)))))))

    pub process_readdir-Talks :
        (entries : List (Text × Stat))
        → Quiet t.ends (files.exists (files.join c.mount_point path)) v true v
        → Quiet t.ends (files.is_directory (files.join c.mount_point path)) v true v
        → Quiet t.ends (files.entries (files.join c.mount_point path)) v (names_of entries) v
        → StatsOf os files t.ends (files.join c.mount_point path) v entries
        → Talks t.ends
            (process_readdir os files c)
            v
            (string_frame path)
            (readdir_reply entries)
            tt
            v
    process_readdir-Talks entries there directory listed stats =
        rw length-map at (
          process_readdir-Talks_walks (names_of entries) entries there directory listed listed
            stats)

    -- Whether the path exists or not, what is no directory is answered with -ENOTDIR.
    pub process_readdir-Talks_failed :
        (there : Bool)
        → Quiet t.ends (files.exists (files.join c.mount_point path)) v there v
        → Quiet t.ends (files.is_directory (files.join c.mount_point path)) v false v
        → Talks t.ends
            (process_readdir os files c)
            v
            (string_frame path)
            (error_frame (neg enotdir))
            tt
            v
    unfolding process_readdir
    process_readdir-Talks_failed there found directory =
        Talks-then_write _ (read_file_path-Talks os files c t path text v) (
          Talks-bind _ found (
            Talks-bind _ directory
              (Talks-last _ (agfs_write_error-Talks os t v (neg enotdir)) (Talks-pure _))))
