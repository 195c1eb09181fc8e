-- ===== src/Client/Directories.antt =====
-- src/agfs.cpp: agfs_readdir, which merges the directories of all servers.
pub mod Merging
pub mod Union
pub mod Answers
pub mod Answered
use ag_fs.Base.{
  ℕ, Bool, List, [], ◌∷◌, ◌++◌, Option, none, some, ℤ, pos, neg, is_neg, map, if◌then◌else◌,
}
use ag_fs.Monad.{M, pure, ◌>>=◌}
use ag_fs.Os.{Os}
use ag_fs.Constants.{enotdir}
use ag_fs.Stat.{Stat}
use ag_fs.Text.{Text, codes}
use ag_fs.SortedMap
use ag_fs.Connection.{ServerConnection, readdir}
use ag_fs.Disambiguater.{
  Disambiguater, empty, ambiguate, add_filepaths, disambiguated_filepaths_with_stats,
}
use ag_fs.Client.{Connections, to_int}

-- What the filler of FUSE is given: a name, and its stat unless NULL is passed.
abbrev pub Filled : Type 0
Filled = List (Text × Option Stat)

abbrev pub given : Text × Stat → Text × Option Stat
given (name, st) = (name, some st)

module _ (os : Os) where
  -- One server: its entries are added if its readdir succeeds, and `err` becomes its result. The
  -- result of addFilepaths is dropped.
  unfoldable pub merge :
      Text → ServerConnection → Text → Disambiguater × ℤ → M os.State (Disambiguater × ℤ)
  merge host c file (disam, err) = do
    (entries, temp) ← readdir os c file
    if is_neg temp then pure (disam, err) else pure ((add_filepaths entries host disam).1, temp)

  unfoldable pub merge_all : Connections → Text → Disambiguater × ℤ → M os.State (Disambiguater × ℤ)
  merge_all [] file found = pure found
  merge_all ((host, c) ∷ connections) file found = do
    found' ← merge host c file found
    merge_all connections file found'

  abbrev pub merge_from :
      Connections → Text → Text → Option ServerConnection → M os.State (Disambiguater × ℤ)
  merge_from connections server file none = merge_all connections file (empty, neg enotdir)
  merge_from connections server file (some c) = merge server c file (empty, neg enotdir)

  -- The result is the int that FUSE gets, and what was filled in.
  unfoldable pub agfs_readdir : Connections → Text → M os.State (ℤ × Filled)
  unfolding ◌>>=◌ merge_all merge
  agfs_readdir connections path =
      let (server, file) = ambiguate path in
      merge_from connections server file (SortedMap.find server connections) >>= λ (disam, err).
      pure (
        to_int err,
        (codes ".", none)
            ∷ (codes "..", none)
            ∷ map given (disambiguated_filepaths_with_stats disam),
      )
