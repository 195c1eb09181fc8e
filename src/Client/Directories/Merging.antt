-- ===== src/Client/Directories/Merging.antt =====
-- What agfs_readdir merges.
use ag_fs.Base.{[], ◌∷◌, ℤ, is_neg, Bool-cases, inl, inr}
use ag_fs.Monad.{◌>>=◌}
use ag_fs.Os.{Os}
use ag_fs.Text.{Text}
use ag_fs.Connection.{ServerConnection, readdir}
use ag_fs.Disambiguater.{Disambiguater}
use ag_fs.Disambiguater.Invariant.{IsWellFormed, add_filepaths-IsWellFormed}
use ag_fs.Client.{Connections}
use ag_fs.Client.Directories.{merge, merge_all}

module _ (os : Os) (file : Text) where
  merge-IsWellFormed :
      (host : Text) (c : ServerConnection) (disam : Disambiguater) (err : ℤ) (s : os.State)
      → IsWellFormed disam
      → IsWellFormed (merge os host c file (disam, err) s).0.0
  unfolding merge ◌>>=◌
  merge-IsWellFormed host c disam err s w = elim (Bool-cases (is_neg (readdir os c file s).0.1)) [
    | inl failed ↦ rw failed w
    | inr fine ↦ rw fine (add_filepaths-IsWellFormed _ host disam w)
  ]

  -- Whatever the servers answer, and however many fail, the merged listing is well formed: its
  -- paths are in order, every file has an owner, and no server owns a file twice.
  pub merge_all-IsWellFormed :
      (connections : Connections) (disam : Disambiguater) (err : ℤ) (s : os.State)
      → IsWellFormed disam
      → IsWellFormed (merge_all os connections file (disam, err) s).0.0
  unfolding merge_all ◌>>=◌
  merge_all-IsWellFormed [] disam err s w = w
  merge_all-IsWellFormed ((host, c) ∷ connections) disam err s w =
      let ((disam', err'), s') = merge os host c file (disam, err) s in
      merge_all-IsWellFormed connections disam' err' s' (merge-IsWellFormed host c disam err s w)
