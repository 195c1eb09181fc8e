-- ===== src/Tests/Switchboard.antt =====
-- A machine with many connected sockets. It shows that what is assumed of several sockets can hold.
use ag_fs.Base.{ℕ, refl, ap, ◌∙◌, ◌++◌, length, take, drop, take-append, drop-append, some, pos}
use ag_fs.Words.{Endian}
use ag_fs.Os.{Os}
use ag_fs.Os.Sockets.{Bytes, put, Sockets}

pub record Board : Type 0 where
  pub inbox : Bytes
  pub outbox : Bytes
  pub errno : ℕ

abbrev pub switchboard : Endian → Os
switchboard e = record {
  State = Board;
  endian = e;
  errno = λ m. m.errno;
  uninit = λ m i. 204;
  read = λ fd n m.
      (some (take n (m.inbox fd)), record m { inbox = put fd (drop n (m.inbox fd)) m.inbox });
  write = λ fd bs m. (some (length bs), record m { outbox = put fd (m.outbox fd ++ bs) m.outbox });
  close = λ fd m. (pos 0, m);
}

abbrev pub lines : (e : Endian) → Sockets (switchboard e) ℕ
lines e = record {
  inbox = λ m. m.inbox;
  outbox = λ m. m.outbox;
  view = λ m. m.errno;
  read_result = λ fd bs rest s hi. ap some (ap (take (length bs)) hi ∙ take-append bs rest);
  read_inbox = λ fd bs rest s hi.
      ap (λ x. put fd x s.inbox) (ap (drop (length bs)) hi ∙ drop-append bs rest);
  read_outbox = λ fd n s. refl;
  read_view = λ fd n s. refl;
  write_result = λ fd bs s. refl;
  write_inbox = λ fd bs s. refl;
  write_outbox = λ fd bs s. refl;
  write_view = λ fd bs s. refl;
  close_result = λ fd s. refl;
  close_inbox = λ fd s. refl;
  close_outbox = λ fd s. refl;
  close_view = λ fd s. refl;
}
