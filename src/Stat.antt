-- ===== src/Stat.antt =====
-- `struct stat`, each member as the unsigned number of its bits: `st_mode` has 32 and the six
-- members that cross the wire otherwise 64.
use ag_fs.Base.{ℕ, ◌/◌, ◌%◌, ◌^◌, ◌<◌, Bool, ◌==◌}

pub record Stat : Type 0 where
  pub st_dev : ℕ
  pub st_ino : ℕ
  pub st_mode : ℕ
  pub st_nlink : ℕ
  pub st_uid : ℕ
  pub st_gid : ℕ
  pub st_rdev : ℕ
  pub st_size : ℕ
  pub st_blksize : ℕ
  pub st_blocks : ℕ
  pub st_atime : ℕ
  pub st_mtime : ℕ
  pub st_ctime : ℕ

-- memset(&buf, 0, sizeof(struct stat))
abbrev pub zero_stat : Stat
zero_stat = record {
  st_dev = 0;
  st_ino = 0;
  st_mode = 0;
  st_nlink = 0;
  st_uid = 0;
  st_gid = 0;
  st_rdev = 0;
  st_size = 0;
  st_blksize = 0;
  st_blocks = 0;
  st_atime = 0;
  st_mtime = 0;
  st_ctime = 0;
}

-- S_ISDIR: (mode & S_IFMT) == S_IFDIR
abbrev pub s_isdir : ℕ → Bool
s_isdir mode = mode / 4096 % 16 == 4

-- The ranges of the members that are sent.
pub record FitsStat (st : Stat) : Type 0 where
  pub dev : st.st_dev < 2 ^ 64
  pub mode : st.st_mode < 2 ^ 32
  pub size : st.st_size < 2 ^ 64
  pub atime : st.st_atime < 2 ^ 64
  pub mtime : st.st_mtime < 2 ^ 64
  pub ctime : st.st_ctime < 2 ^ 64

-- What of a `struct stat` is sent: the other members arrive as 0.
abbrev pub sent_part : Stat → Stat
sent_part st = record zero_stat {
  st_dev = st.st_dev;
  st_mode = st.st_mode;
  st_size = st.st_size;
  st_atime = st.st_atime;
  st_mtime = st.st_mtime;
  st_ctime = st.st_ctime;
}
