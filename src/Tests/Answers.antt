-- ===== src/Tests/Answers.antt =====
-- Operations of the client over three servers, each on a socket of its own: two that answer, and one
-- whose connection is down or that refuses.
use ag_fs.Base.{
  ℕ, ◌≡◌, refl, List, [], ◌∷◌, ◌++◌, map, In, inl, inr, none, some, pos, negsuc, neg, arith, ◌==ℤ◌,
  if◌then◌else◌,
}
use ag_fs.Words.{little}
use ag_fs.Os.Sockets.{Bytes, put}
use ag_fs.Constants.{enoent}
use ag_fs.Stat.{Stat, sent_part}
use ag_fs.Text.{Text, codes, str_lt, str_eq, find}
use ag_fs.Io.Frames.{error_frame}
use ag_fs.SortedMap
use ag_fs.SortedMap.Order.{IsSorted}
use ag_fs.Protocol.{readdir_reply, getattr_reply, getattr_request, access_request, open_request}
use ag_fs.Connection.{connected}
use ag_fs.Connection.Calls.{sent_entries}
use ag_fs.Disambiguater.{Disambiguater, disambiguated_filepaths_with_stats, ambiguate}
use ag_fs.Disambiguater.Invariant.{owners, IsWellFormed}
use ag_fs.Client.{Connections, f_ok}
use ag_fs.Client.Attributes.{agfs_getattr}
use ag_fs.Client.Attributes.Answers.{
  closed, fails, succeeds, after_call, traffic, agfs_getattr_answers,
}
use ag_fs.Client.Contents.{agfs_open}
use ag_fs.Client.Contents.Answers.{
  nobody, grants, denies, agfs_open_answers, agfs_open_unclear_answers,
}
use ag_fs.Client.Directories.{agfs_readdir, given}
use ag_fs.Client.Directories.Union.{Answer, directory_of, owners_of}
use ag_fs.Client.Directories.Answers
use ag_fs.Client.Directories.Answers.{lists, refuses, asked_all}
use ag_fs.Client.Directories.Answered.{Asked, agfs_readdir_answers}
use ag_fs.Tests.Machine.{file_stat, dir_stat}
use ag_fs.Tests.Client.{connection}
use ag_fs.Tests.Switchboard.{Board, switchboard, lines}

abbrev three : Connections
three =
    (codes "A", connection (codes "A") (pos 5))
    ∷ (codes "B", connection (codes "B") (pos 6))
    ∷ (codes "C", connection (codes "C") (pos 7))
    ∷ []

three-IsSorted : IsSorted three
unfolding str_lt
three-IsSorted = ((refl, (refl, tt)), ((refl, tt), (tt, tt)))

-- A machine whose sockets 5, 6 and 7 have these bytes to read.
abbrev standing : List ℕ → List ℕ → List ℕ → Board
standing a b c = record {
  inbox =
      λ fd. if fd ==ℤ pos 5 then a else if fd ==ℤ pos 6 then b else if fd ==ℤ pos 7 then c else [];
  outbox = λ fd. [];
  errno = 0;
}

abbrev from_a : List (Text × Stat)
from_a = (codes "c", file_stat) ∷ (codes "d", dir_stat) ∷ []

abbrev from_c : List (Text × Stat)
from_c = (codes "c", file_stat) ∷ (codes "x", file_stat) ∷ []

only_c : In (codes "c") (codes "x" ∷ []) → ⊥
only_c (inl e) = ground (arith, e)
only_c (inr m) = m

-- The second server refuses, and behind the answer of the third stand other bytes.
abbrev listing : Board
listing =
    standing (readdir_reply from_a ++ []) (error_frame (negsuc 1) ++ [])
      (readdir_reply from_c ++ (7 ∷ []))

abbrev answered : List Answer
answered = (codes "A", sent_entries from_a) ∷ (codes "C", sent_entries from_c) ∷ []

abbrev left_over : Bytes
left_over = put (pos 7) (7 ∷ []) (put (pos 6) [] (put (pos 5) [] listing.inbox))

agfs_readdir_answers_example :
    (d : Disambiguater) × IsWellFormed d
    × ((agfs_readdir (switchboard little) three (codes "/") listing).0.1
        ≡ (codes ".", none) ∷ (codes "..", none) ∷ map given (disambiguated_filepaths_with_stats d))
    × ((j : Text) → owners j d ≡ owners_of j answered)
    × ((j : Text) → SortedMap.find j d.directorymap ≡ directory_of j none answered)
    × ((agfs_readdir (switchboard little) three (codes "/") listing).0.0 ≡ pos 0)
    × Asked
        (switchboard little)
        (lines little)
        (codes "/")
        three
        listing
        (agfs_readdir (switchboard little) three (codes "/") listing).1
        left_over
unfolding find SortedMap.find ambiguate str_eq
agfs_readdir_answers_example =
    agfs_readdir_answers (switchboard little) (lines little) (codes "/") three (codes "/") listing
      three-IsSorted refl refl
      (lists from_a [] (omega arith) (omega arith) refl (
        refuses 1 [] (omega arith) refl
          (lists from_c (7 ∷ []) (omega arith) (omega arith) refl Answers.nobody)))
      (((λ m. m), tt), ((only_c, ((λ m. m), tt)), tt))

-- The first server has no such file, the second grants access and opens it, the third denies it.
abbrev opening : Board
opening =
    standing (error_frame (negsuc 0) ++ []) (error_frame (pos 0) ++ (error_frame (pos 0) ++ []))
      (error_frame (negsuc 0) ++ [])

abbrev path : Text
path = codes "/a"

abbrev opening_left : Bytes
opening_left =
    put (pos 7) [] (put (pos 6) (error_frame (pos 0) ++ []) (put (pos 5) [] opening.inbox))

abbrev all_asked : Bytes
all_asked = asked_all three (access_request path f_ok) (λ fd. [])

agfs_open_answers_example :
    ((agfs_open (switchboard little) three path 0 opening).0
      ≡ (pos 0, some (record { server = codes "B"; file = path })))
    × ((agfs_open (switchboard little) three path 0 opening).1.inbox ≡ put (pos 6) [] opening_left)
    × ((agfs_open (switchboard little) three path 0 opening).1.outbox
        ≡ put (pos 6) (all_asked (pos 6) ++ open_request path 0) all_asked)
unfolding find SortedMap.find ambiguate str_eq connected
agfs_open_answers_example =
    agfs_open_answers (switchboard little) (lines little) path three 0 (codes "B")
      (connection (codes "B") (pos 6)) (pos 0) [] opening refl
      (denies 0 [] (omega arith) refl (
        grants 0 (error_frame (pos 0) ++ []) (omega arith) refl
          (denies 0 [] (omega arith) refl nobody)))
      refl refl (omega arith) refl

-- Two servers have the file.
abbrev unclear : Board
unclear =
    standing (error_frame (pos 0) ++ []) (error_frame (pos 0) ++ []) (error_frame (negsuc 0) ++ [])

agfs_open_unclear_answers_example :
    ((agfs_open (switchboard little) three path 0 unclear).0 ≡ (neg enoent, none))
    × ((agfs_open (switchboard little) three path 0 unclear).1.inbox
        ≡ put (pos 7) [] (put (pos 6) [] (put (pos 5) [] unclear.inbox)))
    × ((agfs_open (switchboard little) three path 0 unclear).1.outbox ≡ all_asked)
unfolding find ambiguate
agfs_open_unclear_answers_example =
    agfs_open_unclear_answers (switchboard little) (lines little) path three 0
      (codes "A" ∷ codes "B" ∷ []) unclear refl
      (grants 0 [] (omega arith) refl
        (grants 0 [] (omega arith) refl (denies 0 [] (omega arith) refl nobody)))
      (omega arith)

-- The first connection is down, the second server has no such file, and the third has it.
abbrev one_down : Connections
one_down =
    (codes "A", connection (codes "A") (negsuc 0))
    ∷ (codes "B", connection (codes "B") (pos 6))
    ∷ (codes "C", connection (codes "C") (pos 7))
    ∷ []

abbrev asking : Board
asking = standing [] (error_frame (negsuc 1) ++ []) (getattr_reply file_stat ++ (7 ∷ []))

agfs_getattr_answers_example :
    ((agfs_getattr (switchboard little) one_down path asking).0 ≡ (pos 0, sent_part file_stat))
    × (traffic
          (switchboard little)
          (lines little)
          (agfs_getattr (switchboard little) one_down path asking).1
        ≡ after_call (pos 7) (getattr_request path) (7 ∷ []) (
            after_call
              (pos 6)
              (getattr_request path)
              []
              (traffic (switchboard little) (lines little) asking)))
unfolding find SortedMap.find ambiguate str_eq connected
agfs_getattr_answers_example =
    agfs_getattr_answers (switchboard little) (lines little) one_down path asking refl (
      closed refl (
        fails 1 [] refl (omega arith) refl
          (succeeds file_stat (7 ∷ []) refl (omega arith) refl refl refl)))
