-- ===== src/Tests/Pieces.antt =====
-- Transfers of one byte at a time.
use ag_fs.Base.{ℕ, refl, ap, List, [], ◌++◌, length, take, drop, some, pos, arith}
use ag_fs.Words.{little}
use ag_fs.Os.{Os}
use ag_fs.Os.Pieces.{TakesSome, BringsSome, StoresAll}
use ag_fs.Text.{codes}
use ag_fs.Connection.{send_loop}
use ag_fs.Connection.Pieces.{Sent, send_loop-Sent}
use ag_fs.Server.{Files}
use ag_fs.Server.Transfers.{write_loop}
use ag_fs.Server.Transfers.Pieces.{Saved, write_loop-Saved}
use ag_fs.Tests.Machine.{Machine, machine, holding, files}

-- The bytes that were written, and those that are still to be read.
abbrev out : Machine → List ℕ
out m = m.outbox

abbrev to_read : Machine → List ℕ
to_read m = m.inbox

-- A write takes the first byte only.
abbrev sipping : Os
sipping = record (machine little) {
  write = λ fd bs m. (some (length (take 1 bs)), record m { outbox = m.outbox ++ take 1 bs });
}

takes_one : TakesSome out (sipping.write (pos 5))
takes_one b bs s = record { before_last = 0; result = refl; fits = omega arith; sent = refl }

send_loop-Sent_example :
    Sent sipping
      (pos 5)
      out
      3
      (codes "abc")
      (holding [])
      (send_loop sipping 3 (pos 5) (codes "abc") 3 0 (pos 0) (holding []))
send_loop-Sent_example = send_loop-Sent sipping (pos 5) out takes_one (codes "abc") (holding [])

-- A read brings one byte only.
abbrev dripping : Os
dripping = record (machine little) {
  read = λ fd n m. (some (take 1 m.inbox), record m { inbox = drop 1 m.inbox });
}

-- The calls on files are those of the machine.
abbrev drip_files : Files dripping
drip_files = record {
  join = (files little).join;
  lstat = (files little).lstat;
  access = (files little).access;
  open_file = (files little).open_file;
  lseek = (files little).lseek;
  exists = (files little).exists;
  is_directory = (files little).is_directory;
  entries = (files little).entries;
}

brings_one : BringsSome to_read out (dripping.read (pos 5))
brings_one n b bs s e = record {
  first = b;
  others = [];
  later = bs;
  result = ap (λ l. some (take 1 l)) e;
  fits = omega arith;
  whole = refl;
  left = ap (drop 1) e;
  kept = refl;
}

stores_all : StoresAll to_read out (dripping.write (pos 6))
stores_all b bs s = record { result = refl; stored = refl; unread = refl }

write_loop-Saved_example :
    Saved dripping drip_files
      (pos 5)
      (pos 6)
      to_read
      out
      3
      (codes "abc")
      (codes "z")
      (holding (codes "abcz"))
      (write_loop dripping drip_files 3 (pos 5) (pos 6) 3 0 0 (pos 0) (holding (codes "abcz")))
write_loop-Saved_example =
    write_loop-Saved dripping drip_files (pos 5) (pos 6) to_read out brings_one stores_all
      (codes "z") (codes "abc") (holding (codes "abcz")) refl
