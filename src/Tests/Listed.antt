-- ===== src/Tests/Listed.antt =====
-- A getattr of FUSE for a file that two servers have, one of them reached over this machine.
use ag_fs.Base.{refl, true, [], ◌∷◌, ◌++◌, pos, arith}
use ag_fs.Words.{little, big}
use ag_fs.Os.Stream.{Reached}
use ag_fs.Stat.{sent_part}
use ag_fs.Text.{codes, str_eq, find}
use ag_fs.SortedMap
use ag_fs.Disambiguater.Listing.{shown}
use ag_fs.Client.{Connections}
use ag_fs.Client.Attributes.{agfs_getattr}
use ag_fs.Client.Attributes.Listed.{agfs_getattr_remote}
use ag_fs.Server.Commands.{command_round}
use ag_fs.Protocol.{getattr_request, getattr_reply}
use ag_fs.Connection.{connected}
use ag_fs.Tests.Machine.{machine, ends, stream, holding, unmoved, files, file_stat, dir_stat}
use ag_fs.Tests.Remote.{conn, served, path, path-IsText}

abbrev joined : Connections
joined = (codes "B", conn) ∷ []

agfs_getattr_remote_example :
    Reached
      (ends little)
      (agfs_getattr (machine little) joined (
        codes "/"
        ++ shown (codes "a") ((codes "A", dir_stat) ∷ (codes "B", file_stat) ∷ []) (codes "B")))
      (holding (getattr_reply file_stat ++ []))
      []
      (getattr_request path)
      (pos 0, sent_part file_stat)
      0
    × Reached
        (ends big)
        (command_round (machine big) (files big) served)
        (holding (getattr_request path ++ []))
        []
        (getattr_reply file_stat)
        (true, served)
        0
unfolding str_eq find SortedMap.find connected
agfs_getattr_remote_example =
    agfs_getattr_remote (machine little) (machine big) (files big) joined conn served
      (stream little (pos 5)) (stream big (pos 4)) (holding (getattr_reply file_stat ++ []))
      (holding (getattr_request path ++ [])) [] [] (codes "/") (codes "a") (codes "B")
      (codes "A", dir_stat) (codes "B", file_stat) [] file_stat refl refl (omega arith) refl refl
      path-IsText (omega arith) (unmoved big _ _ 0 (λ s. refl)) refl refl
