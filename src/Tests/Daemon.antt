-- ===== src/Tests/Daemon.antt =====
-- A run of the daemon on a system that counts its descriptors up, answers accept with -1 where the
-- next one is taken, and cannot fork every other time.
use ag_fs.Base.{
  ℕ, suc, ◌%◌, Bool, true, false, not, ◌&&◌, ◌||◌, ◌≡◌, refl, sym, ap, Bool-cases, List, [], ◌∷◌,
  none, some, inl, inr, map, ℤ, pos, negsuc, ◌==◌, ◌==ℤ◌, if◌then◌else◌,
}
use ag_fs.Words.{little}
use ag_fs.Monad.{M, ◌>>=◌}
use ag_fs.Os.{Os}
use ag_fs.Text.{Text, codes}
use ag_fs.Server.{Files}
use ag_fs.Server.Admission.{Accounts}
use ag_fs.Daemon.{
  Forked, fork_failed, forked, Listening, Child, DaemonRun, serving, exited, open_port, daemon_main,
  accept_loop, accept_round, child_of,
}
use ag_fs.Daemon.Descriptors.{Opens, Table}
use ag_fs.Daemon.Serving.{Separate, daemon_main-Separate}

record Host : Type 0 where
  held : ℤ → Bool
  next : ℕ

abbrev host : Os
host = record {
  State = Host;
  endian = little;
  errno = λ s. 0;
  uninit = λ s i. 0;
  read = λ fd n s. (none, s);
  write = λ fd bs s. (none, s);
  close = λ fd s. (pos 0, record s { held = λ x. not (x ==ℤ fd) && s.held x });
}

-- The next descriptor, or -1 where it is taken.
abbrev open_next : M Host ℤ
open_next s =
    if s.held (pos s.next)
    then (negsuc 0, record s { next = suc s.next })
    else (pos s.next, record { held = λ x. x ==ℤ pos s.next || s.held x; next = suc s.next })

abbrev net : Listening host
net = record {
  Address = Text;
  getaddrinfo = λ port s. (some port, s);
  socket = λ a s. open_next s;
  reuse_address = λ fd s. (pos 0, s);
  bind = λ fd a s. (pos 0, s);
  listen = λ fd n s. (pos 0, s);
  accept = λ fd s. open_next s;
  fork = λ s. (if s.next % 2 == 0 then fork_failed else forked s, s);
  become_root = λ s. (pos 0, s);
}

abbrev no_files : Files host
no_files = record {
  join = λ a b. b;
  lstat = λ path s. (none, s);
  access = λ path mask s. (negsuc 0, s);
  open_file = λ path flags s. (negsuc 0, s);
  lseek = λ fd offset s. (negsuc 0, s);
  exists = λ path s. (false, s);
  is_directory = λ path s. (false, s);
  entries = λ path s. ([], s);
}

abbrev no_accounts : Accounts host
no_accounts = record {
  set_timeout = λ fd sec usec s. (tt, s);
  set_blocking = λ fd s. (tt, s);
  key_list = λ s. (some [], s);
  getpwnam = λ user s. (none, s);
  setuid = λ uid s. (pos 0, s);
  setgid = λ gid s. (pos 0, s);
}

abbrev holds : Host → ℤ → Bool
holds s = s.held

open_next-Opens : Opens holds open_next
open_next-Opens s = elim (Bool-cases (s.held (pos s.next))) [
  | inl e ↦ rw (e) ((λ up x. refl), (λ up. cc))
  | inr e ↦ rw (e) ((λ down. cc), (λ up. record { fresh = e; held = λ x. refl }))
]

held_by : Forked Host → (ℤ → Bool) → ℤ → Bool
held_by fork_failed held = held
held_by (forked t) held = t.held

held_by-forked :
    (b : Bool) (s t : Host)
    → (if b then fork_failed else forked s) ≡ forked t
    → (x : ℤ) → t.held x ≡ s.held x
unfolding held_by
held_by-forked true s t e x = sym (ap (λ f. held_by f s.held x) e)
held_by-forked false s t e x = sym (ap (λ f. held_by f s.held x) e)

forked-same : (s t : Host) → (net.fork s).0 ≡ forked t → (x : ℤ) → t.held x ≡ s.held x
forked-same s t e x = held_by-forked (s.next % 2 == 0) s t e x

abbrev table : Table host net holds
table = record {
  getaddrinfo_same = λ port s x. refl;
  reuse_same = λ fd s x. refl;
  bind_same = λ fd a s x. refl;
  listen_same = λ fd n s x. refl;
  root_same = λ s x. refl;
  fork_same = λ s x. refl;
  fork_copies = forked-same;
  socket_opens = λ a. open_next-Opens;
  accept_opens = λ fd. open_next-Opens;
  close_drops = λ fd s x. refl;
}

-- The descriptors 0 and 5 are taken at the start.
abbrev started : Host
started = record { held = λ x. x ==ℤ pos 0 || x ==ℤ pos 5; next = 3 }

daemon_main-Separate_example :
    Separate host net holds table no_files no_accounts 0 2 2
      (codes "80" ∷ [])
      started
      (daemon_main host net no_files no_accounts 0 2 2 5 (codes "80" ∷ []) started)
daemon_main-Separate_example =
    daemon_main-Separate host net holds table no_files no_accounts 0 2 2 5 (codes "80" ∷ []) started

-- The connections that a run serves.
connections : DaemonRun Host → List ℤ
connections (exited code) = []
connections (serving lfd children) = map (λ (c : Child Host). c.connection) children

three_served :
    connections (daemon_main host net no_files no_accounts 0 2 2 5 (codes "80" ∷ []) started).0
    ≡ pos 4 ∷ pos 6 ∷ pos 8 ∷ []
unfolding connections daemon_main accept_loop accept_round child_of open_port ◌>>=◌
three_served = refl
