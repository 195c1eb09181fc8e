-- ===== src/Client/Main.antt =====
-- src/agfs.cpp: main up to the call of fuse_main, and the table of operations that it fills in.
pub mod Ready
use ag_fs.Base.{ℕ, Bool, List, [], ◌∷◌, map, Option, ℤ, if◌then◌else◌}
use ag_fs.Monad.{M, pure, ◌>>=◌}
use ag_fs.Os.{Os}
use ag_fs.Stat.{Stat}
use ag_fs.Text.{Text}
use ag_fs.Connection.Connect.{Network}
use ag_fs.Client.{Connections, FileHandle}
use ag_fs.Client.Attributes.{agfs_getattr, agfs_access}
use ag_fs.Client.Contents.{agfs_open, agfs_read, agfs_write}
use ag_fs.Client.Directories.{Filled, agfs_readdir}
use ag_fs.Client.Local.{
  TimeSpec, LocalCalls, agfs_readlink, agfs_opendir, agfs_releasedir, agfs_mknod, agfs_mkdir,
  agfs_symlink, agfs_unlink, agfs_rmdir, agfs_rename, agfs_link, agfs_chmod, agfs_chown,
  agfs_truncate, agfs_utimens, agfs_statfs, agfs_release, agfs_fsync,
}
use ag_fs.Client.Startup.{KeyEntry, Places, Joined, connect_all, agfs_destroy}

-- The members of struct fuse_operations that main sets.
pub record FuseOperations (os : Os) : Type 0 where
  pub destroy : Places → M os.State Joined
  pub getattr : Text → M os.State (ℤ × Stat)
  pub access : Text → ℕ → M os.State ℤ
  pub readlink : Text → ℕ → M os.State (ℤ × Option (List ℕ))
  pub opendir : Text → M os.State ℤ
  pub readdir : Text → M os.State (ℤ × Filled)
  pub releasedir : Text → M os.State ℤ
  pub mknod : Text → ℕ → ℕ → M os.State ℤ
  pub mkdir : Text → ℕ → M os.State ℤ
  pub symlink : Text → Text → M os.State ℤ
  pub unlink : Text → M os.State ℤ
  pub rmdir : Text → M os.State ℤ
  pub rename : Text → Text → M os.State ℤ
  pub link : Text → Text → M os.State ℤ
  pub chmod : Text → ℕ → M os.State ℤ
  pub chown : Text → ℕ → ℕ → M os.State ℤ
  pub truncate : Text → ℤ → M os.State ℤ
  pub utimens : Text → TimeSpec → TimeSpec → M os.State ℤ
  pub open_path : Text → ℕ → M os.State (ℤ × Option FileHandle)
  pub read : FileHandle → ℕ → ℕ → M os.State (ℤ × List ℕ)
  pub write : FileHandle → List ℕ → ℕ → ℕ → M os.State ℤ
  pub statfs : Text → M os.State ℤ
  pub release : Text → Option FileHandle → M os.State (ℤ × Option FileHandle)
  pub fsync : Text → Bool → M os.State ℤ

-- The key directory below the home directory: whether it is there, and its entries.
pub record KeyDirectory (os : Os) : Type 0 where
  pub exists : M os.State Bool
  pub entries : M os.State (List KeyEntry)

-- What main has come to when it ends or calls fuse_main: the code of an exit, or the connections,
-- the hosts whose connection has a heartbeat thread, and the table of operations.
pub data Startup (os : Os) : Type 0 where
  exits : ℕ → Startup os
  mounts : Connections → List Text → FuseOperations os → Startup os

module _ (os : Os) (calls : LocalCalls os) where
  -- agfs_oper. The operations work on the connections that the program has when they are called.
  unfoldable pub agfs_oper : Network os → Connections → FuseOperations os
  agfs_oper net connections = record {
    destroy = λ places. agfs_destroy os net places connections;
    getattr = agfs_getattr os connections;
    access = agfs_access os connections;
    readlink = agfs_readlink os calls;
    opendir = agfs_opendir os;
    readdir = agfs_readdir os connections;
    releasedir = agfs_releasedir os;
    mknod = agfs_mknod os calls;
    mkdir = agfs_mkdir os calls;
    symlink = agfs_symlink os calls;
    unlink = agfs_unlink os calls;
    rmdir = agfs_rmdir os calls;
    rename = agfs_rename os calls;
    link = agfs_link os calls;
    chmod = agfs_chmod os calls;
    chown = agfs_chown os calls;
    truncate = agfs_truncate os calls;
    utimens = agfs_utimens os calls;
    open_path = agfs_open os connections;
    read = agfs_read os connections;
    write = agfs_write os connections;
    statfs = agfs_statfs os calls;
    release = agfs_release os;
    fsync = agfs_fsync os;
  }

  module _ (net : Network os) (keys : KeyDirectory os) where
    -- One heartbeat thread is started for each connection of the map.
    abbrev pub threads_of : Connections → List Text
    threads_of connections = map (λ (entry : Text × _). entry.0) connections

    abbrev connect_and_mount : Bool → M os.State (Startup os)
    connect_and_mount there =
        if there
        then (do
          entries ← keys.entries
          connections ← connect_all os net entries []
          pure (mounts connections (threads_of connections) (agfs_oper net connections)))
        else pure (exits 1)

    unfoldable pub client_main : M os.State (Startup os)
    unfolding agfs_oper
    client_main = do there ← keys.exists; connect_and_mount there
