-- ===== src/Tests/Union.antt =====
-- A readdir of FUSE over two servers that share a file.
use ag_fs.Base.{◌≡◌, refl, List, [], ◌∷◌, ◌++◌, map, In, inl, inr, none, pos, arith}
use ag_fs.Words.{little}
use ag_fs.Os.Stream.{Reached}
use ag_fs.Stat.{Stat}
use ag_fs.Text.{Text, codes, str_lt, str_eq, find}
use ag_fs.SortedMap
use ag_fs.SortedMap.Order.{IsSorted}
use ag_fs.Connection.{readdir}
use ag_fs.Connection.Calls.{readdir-Talks, sent_entries}
use ag_fs.Disambiguater.{Disambiguater, disambiguated_filepaths_with_stats, ambiguate}
use ag_fs.Disambiguater.Invariant.{owners, IsWellFormed}
use ag_fs.Client.{Connections}
use ag_fs.Client.Directories.{agfs_readdir, given}
use ag_fs.Client.Directories.Union.{Plain, answers, owners_of, directory_of, agfs_readdir_union}
use ag_fs.Protocol.{readdir_reply, readdir_request}
use ag_fs.Tests.Machine.{Machine, machine, ends, stream, holding, file_stat, dir_stat}
use ag_fs.Tests.Remote.{conn}

abbrev from_a : List (Text × Stat)
from_a = (codes "c", file_stat) ∷ (codes "d", dir_stat) ∷ []

abbrev from_b : List (Text × Stat)
from_b = (codes "c", file_stat) ∷ (codes "x", file_stat) ∷ []

abbrev pair : Connections
pair = (codes "A", conn) ∷ (codes "B", conn) ∷ []

pair-IsSorted : IsSorted pair
unfolding str_lt
pair-IsSorted = ((refl, tt), (tt, tt))

abbrev answering : Machine
answering = holding (readdir_reply from_a ++ (readdir_reply from_b ++ []))

first_answer :
    Reached
      (ends little)
      (readdir (machine little) conn (codes "/"))
      answering
      (readdir_reply from_b ++ [])
      (readdir_request (codes "/"))
      (sent_entries from_a, pos 0)
      0
first_answer =
    (readdir-Talks (machine little) conn (stream little (pos 5)) 0 (codes "/") from_a
        (((omega arith), (omega arith)), (((omega arith), (omega arith)), tt)) (omega arith)).at
      answering (readdir_reply from_b ++ []) refl refl

abbrev between : Machine
between = (readdir (machine little) conn (codes "/") answering).1

second_answer :
    Reached
      (ends little)
      (readdir (machine little) conn (codes "/"))
      between
      []
      (readdir_request (codes "/"))
      (sent_entries from_b, pos 0)
      0
second_answer =
    (readdir-Talks (machine little) conn (stream little (pos 5)) 0 (codes "/") from_b
        (((omega arith), (omega arith)), (((omega arith), (omega arith)), tt)) (omega arith)).at
      between [] first_answer.view first_answer.inbox

only_c : In (codes "c") (codes "x" ∷ []) → ⊥
only_c (inl e) = ground (arith, e)
only_c (inr m) = m

answers-Plain :
    Plain (machine little) (codes "/") (answers (machine little) (codes "/") pair answering)
unfolding answers
answers-Plain =
    rw (first_answer.result, second_answer.result) (((λ m. m), tt), ((only_c, ((λ m. m), tt)), tt))

agfs_readdir_union_example :
    (d : Disambiguater) × IsWellFormed d
    × ((agfs_readdir (machine little) pair (codes "/") answering).0.1
        ≡ (codes ".", none) ∷ (codes "..", none) ∷ map given (disambiguated_filepaths_with_stats d))
    × ((j : Text) → owners j d ≡ owners_of j (answers (machine little) (codes "/") pair answering))
    × ((j : Text)
        → SortedMap.find j d.directorymap
          ≡ directory_of j none (answers (machine little) (codes "/") pair answering))
unfolding find SortedMap.find ambiguate str_eq
agfs_readdir_union_example =
    agfs_readdir_union (machine little) (codes "/") pair (codes "/") answering pair-IsSorted refl
      refl answers-Plain
