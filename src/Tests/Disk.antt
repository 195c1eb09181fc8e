-- ===== src/Tests/Disk.antt =====
-- A read of a file of five bytes, on a machine whose reads of the file return two bytes at most;
-- and a write to a file that takes three bytes.
use ag_fs.Base.{
  ℕ, ◌+◌, ◌≤◌, refl, sym, ap, ◌∙◌, Bool, true, false, ◌==◌, List, [], ◌∷◌, ◌++◌, length, take, drop,
  take-append, drop-append, append-nil, some, ℤ, pos, negsuc, arith, if◌then◌else◌,
}
use ag_fs.Words.{little, big}
use ag_fs.Os.{Os}
use ag_fs.Os.Stream.{Ends, Stream, Reached, Quiet}
use ag_fs.Stat.{zero_stat}
use ag_fs.Text.{codes, str_eq}
use ag_fs.SortedMap
use ag_fs.Connection.{connected}
use ag_fs.Client.{Connections, FileHandle}
use ag_fs.Client.Contents.{agfs_read, agfs_write}
use ag_fs.Client.Contents.Remote.{agfs_read_remote, agfs_write_remote}
use ag_fs.Server.{Files}
use ag_fs.Server.Transfers.Reading.{Pieces, ended, piece}
use ag_fs.Server.Transfers.Writing.{Stored, taken}
use ag_fs.Server.Commands.{command_round}
use ag_fs.Protocol.{read_request, read_reply, write_request, write_reply}
use ag_fs.Tests.Machine.{machine, ends, stream, holding}
use ag_fs.Tests.Remote.{conn, served, path, path-IsText}

record Disk : Type 0 where
  inbox : List ℕ
  outbox : List ℕ
  position : ℕ

abbrev is_file : ℤ → Bool
is_file (pos n) = n == 7
is_file (negsuc n) = false

-- What a read of `n` bytes at a position returns.
abbrev chunk : ℕ → ℕ → List ℕ
chunk n p = take n (take 2 (drop p (codes "hello")))

abbrev disk : Os
disk = record {
  State = Disk;
  endian = big;
  errno = λ m. 0;
  uninit = λ m i. 204;
  read = λ fd n m.
      if is_file fd
      then (
        some (chunk n m.position),
        record m { position = m.position + length (chunk n m.position) },
      )
      else (some (take n m.inbox), record m { inbox = drop n m.inbox });
  write = λ fd bs m.
      if is_file fd
      then (some 3, record m { position = m.position + 3 })
      else (some (length bs), record m { outbox = m.outbox ++ bs });
  close = λ fd m. (pos 0, m);
}

abbrev disk_ends : Ends Disk ℕ
disk_ends = record { inbox = λ m. m.inbox; outbox = λ m. m.outbox; view = λ m. m.position }

abbrev disk_stream : Stream disk (pos 4) ℕ
disk_stream = record {
  ends = disk_ends;
  read_waits = λ bs w. record {
    at = λ s rest hw hi. record {
      result = ap some (ap (take (length bs)) hi ∙ take-append bs rest);
      inbox = ap (drop (length bs)) hi ∙ drop-append bs rest;
      outbox = sym (append-nil s.outbox);
      view = hw;
    };
  };
  write_takes = λ bs w. record {
    at = λ s rest hw hi. record { result = refl; inbox = hi; outbox = refl; view = hw };
  };
  close_succeeds = λ w. record {
    at = λ s rest hw hi. record {
      result = refl;
      inbox = hi;
      outbox = sym (append-nil s.outbox);
      view = hw;
    };
  };
}

abbrev disk_files : Files disk
disk_files = record {
  join = λ a b. a ++ b;
  lstat = λ file m. (some zero_stat, m);
  access = λ file mask m. (pos 0, m);
  open_file = λ file flags m. (pos 7, m);
  lseek = λ fd offset m. (pos offset, record m { position = offset });
  exists = λ file m. (true, m);
  is_directory = λ file m. (false, m);
  entries = λ file m. ([], m);
}

file_read :
    (n p : ℕ) → Quiet disk_ends (disk.read (pos 7) n) p (some (chunk n p)) (p + length (chunk n p))
file_read n p = record {
  at = λ s rest hw hi. record {
    result = ap (λ q. some (chunk n q)) hw;
    inbox = hi;
    outbox = sym (append-nil s.outbox);
    view = ap (λ q. q + length (chunk n q)) hw;
  };
}

-- From position 1: two bytes, two more, and the end of the file.
two-Pieces : Pieces disk disk_ends (pos 7) 8 [] 1 (codes "ello") 5
two-Pieces =
    piece (omega arith) (file_read 8 1)
      (piece (omega arith) (file_read 6 3) (ended (omega arith) (file_read 4 5)))

kept : {A : Type 0} {a : A} (p : ℕ) → Quiet disk_ends (λ m. (a, m)) p a p
kept p = record {
  at = λ s rest hw hi. record {
    result = refl;
    inbox = hi;
    outbox = sym (append-nil s.outbox);
    view = hw;
  };
}

sought : (offset p : ℕ) → Quiet disk_ends (disk_files.lseek (pos 7) offset) p (pos offset) offset
sought offset p = record {
  at = λ s rest hw hi. record {
    result = refl;
    inbox = hi;
    outbox = sym (append-nil s.outbox);
    view = refl;
  };
}

abbrev asked : Disk
asked = record { inbox = read_request path 8 1 ++ []; outbox = []; position = 0 }

abbrev joined : Connections
joined = (codes "B", conn) ∷ []

abbrev handle : FileHandle
handle = record { server = codes "B"; file = path }

agfs_read_remote_example :
    Reached
      (ends little)
      (agfs_read (machine little) joined handle 8 1)
      (holding (read_reply (codes "ello") ++ []))
      []
      (read_request path 8 1)
      (pos 4, codes "ello")
      0
    × Reached disk_ends
        (command_round disk disk_files served)
        asked
        []
        (read_reply (codes "ello"))
        (true, served)
        5
    × (4 ≤ 8)
unfolding SortedMap.find str_eq connected
agfs_read_remote_example =
    agfs_read_remote (machine little) disk disk_files joined handle conn served
      (stream little (pos 5)) disk_stream (holding (read_reply (codes "ello") ++ [])) asked [] []
      path-IsText refl refl 8 1 7 (pos 1) (codes "ello") (omega arith) (omega arith) (kept 0)
      (sought 1 0) two-Pieces refl refl

three-Stored : Stored disk disk_ends (pos 7) (codes "hello") 1 (pos 3) 4
three-Stored =
    taken
      (record {
        at = λ s rest hw hi. record {
          result = refl;
          inbox = hi;
          outbox = sym (append-nil s.outbox);
          view = ap (λ p. p + 3) hw;
        };
      })
      (kept 4)

abbrev given_data : Disk
given_data = record {
  inbox = write_request path (codes "hello") 1 ++ [];
  outbox = [];
  position = 0;
}

agfs_write_remote_example :
    Reached
      (ends little)
      (agfs_write (machine little) joined handle (codes "hello") 5 1)
      (holding (write_reply (pos 3) ++ []))
      []
      (write_request path (codes "hello") 1)
      (pos 3)
      0
    × Reached disk_ends
        (command_round disk disk_files served)
        given_data
        []
        (write_reply (pos 3))
        (true, served)
        4
unfolding SortedMap.find str_eq connected
agfs_write_remote_example =
    agfs_write_remote (machine little) disk disk_files joined handle conn served
      (stream little (pos 5)) disk_stream (holding (write_reply (pos 3) ++ [])) given_data [] []
      path-IsText refl refl (codes "hello") 1 7 (pos 1) (pos 3) (omega arith) (omega arith)
      (omega arith) (kept 0) (sought 1 0) three-Stored refl refl
