-- ===== src/Tests/Machine.antt =====
-- A machine with one connection: what is read comes from a list of bytes, and what is written goes
-- to another. It shows that what is assumed of a system can hold.
use ag_fs.Base.{
  ℕ, ◌≡◌, refl, sym, ap, ◌∙◌, ◌||◌, List, [], ◌∷◌, ◌++◌, length, take, drop, take-append,
  drop-append, append-nil, none, some, ℤ, pos, negsuc, if◌then◌else◌,
}
use ag_fs.Words.{Endian}
use ag_fs.Monad.{M}
use ag_fs.Os.{Os}
use ag_fs.Os.Stream.{Ends, Stream, Quiet}
use ag_fs.Stat.{Stat, zero_stat}
use ag_fs.Text.{codes, str_eq}
use ag_fs.Server.{Files}

pub record Machine : Type 0 where
  pub inbox : List ℕ
  pub outbox : List ℕ
  pub errno : ℕ

abbrev pub machine : Endian → Os
machine e = record {
  State = Machine;
  endian = e;
  errno = λ m. m.errno;
  uninit = λ m i. 204;
  read = λ fd n m. (some (take n m.inbox), record m { inbox = drop n m.inbox });
  write = λ fd bs m. (some (length bs), record m { outbox = m.outbox ++ bs });
  close = λ fd m. (pos 0, m);
}

abbrev pub ends : (e : Endian) → Ends (machine e).State ℕ
ends e = record { inbox = λ m. m.inbox; outbox = λ m. m.outbox; view = λ m. m.errno }

-- A connection of this machine is a stream.
abbrev pub stream : (e : Endian) (fd : ℤ) → Stream (machine e) fd ℕ
stream e fd = record {
  ends = ends e;
  read_waits = λ bs w. record {
    at = λ s rest hw hi. record {
      result = ap some (ap (take (length bs)) hi ∙ take-append bs rest);
      inbox = ap (drop (length bs)) hi ∙ drop-append bs rest;
      outbox = sym (append-nil s.outbox);
      view = hw;
    };
  };
  write_takes = λ bs w. record {
    at = λ s rest hw hi. record { result = refl; inbox = hi; outbox = refl; view = hw };
  };
  close_succeeds = λ w. record {
    at = λ s rest hw hi. record {
      result = refl;
      inbox = hi;
      outbox = sym (append-nil s.outbox);
      view = hw;
    };
  };
}

-- A machine that has these bytes to read.
abbrev pub holding : List ℕ → Machine
holding bytes = record { inbox = bytes; outbox = []; errno = 0 }

-- A regular file of 5 bytes, and a directory.
abbrev pub file_stat : Stat
file_stat = record zero_stat {
  st_dev = 2049;
  st_mode = 33188;
  st_size = 5;
  st_atime = 1400000000;
  st_nlink = 1;
}

abbrev pub dir_stat : Stat
dir_stat = record zero_stat { st_mode = 16877; st_size = 4096; st_nlink = 2 }

-- The files of the server: /srv/a is a file, /srv a directory that holds it, and nothing else is
-- there.
abbrev pub files : (e : Endian) → Files (machine e)
files e = record {
  join = λ a b. a ++ b;
  lstat = λ path m.
      if str_eq path (codes "/srv/a") then (some file_stat, m) else (none, record m { errno = 2 });
  access = λ path mask m. if str_eq path (codes "/srv/a") then (pos 0, m) else (negsuc 0, m);
  open_file = λ path flags m.
      if str_eq path (codes "/srv/a") then (pos 7, m) else (negsuc 0, record m { errno = 2 });
  lseek = λ fd offset m. (pos offset, m);
  exists = λ path m. (str_eq path (codes "/srv/a") || str_eq path (codes "/srv/"), m);
  is_directory = λ path m. (str_eq path (codes "/srv/"), m);
  entries = λ path m. (codes "a" ∷ [], m);
}

module _ {A : Type 0} (e : Endian) (m : M Machine A) (a : A) (w : ℕ) where
  -- A call that changes nothing.
  pub unmoved : ((s : Machine) → m s ≡ (a, s)) → Quiet (ends e) m w a w
  unmoved h = record {
    at = λ s rest hw hi. record {
      result = ap (λ (r : A × Machine). r.0) (h s);
      inbox = ap (λ (r : A × Machine). r.1.inbox) (h s) ∙ hi;
      outbox = ap (λ (r : A × Machine). r.1.outbox) (h s) ∙ sym (append-nil s.outbox);
      view = ap (λ (r : A × Machine). r.1.errno) (h s) ∙ hw;
    };
  }

  -- A call that sets errno.
  pub fails : (n : ℕ) → ((s : Machine) → m s ≡ (a, record s { errno = n })) → Quiet (ends e) m w a n
  fails n h = record {
    at = λ s rest hw hi. record {
      result = ap (λ (r : A × Machine). r.0) (h s);
      inbox = ap (λ (r : A × Machine). r.1.inbox) (h s) ∙ hi;
      outbox = ap (λ (r : A × Machine). r.1.outbox) (h s) ∙ sym (append-nil s.outbox);
      view = ap (λ (r : A × Machine). r.1.errno) (h s);
    };
  }
