-- ===== src/Client/Contents/Opening.antt =====
-- Which server agfs_open opens a file on.
use ag_fs.Base.{ℕ, ◌≡◌, ◌≢◌, refl, true, List, [], ◌∷◌, length, none, some, pos, neg}
use ag_fs.Os.{Os}
use ag_fs.Constants.{enoent}
use ag_fs.Text.{Text}
use ag_fs.SortedMap
use ag_fs.Connection.{ServerConnection, connected, open_path}
use ag_fs.Disambiguater.{ambiguate}
use ag_fs.Client.{Connections, check_existance, to_int}
use ag_fs.Client.Contents.{agfs_open, choose}

module _ (os : Os) (connections : Connections) (path : Text) (flags : ℕ) (s : os.State) where
  -- A name without a server that no server has, or more than one, cannot be opened: the result is
  -- -ENOENT, there is no file handle, and no server is asked to open anything.
  pub agfs_open_unclear :
      (hosts : List Text) {s' : os.State}
      → (ambiguate path).0 ≡ []
      → check_existance os connections path s ≡ (hosts, s')
      → length hosts ≢ 1
      → agfs_open os connections path flags s ≡ ((neg enoent, none), s')
  unfolding agfs_open
  agfs_open_unclear [] plain asked several = rw (plain, choose, asked)
  agfs_open_unclear (host ∷ []) plain asked several = absurd (several refl)
  agfs_open_unclear (host ∷ other ∷ hosts) plain asked several = rw (plain, choose, asked)

  -- A name without a server that exactly one server has is opened on that server, if it is
  -- connected and its open succeeds, and the handle names it.
  pub agfs_open_only :
      (host : Text) (c : ServerConnection) (n : ℕ) {s' s'' : os.State}
      → (ambiguate path).0 ≡ []
      → check_existance os connections path s ≡ (host ∷ [], s')
      → SortedMap.find host connections ≡ some c
      → connected c ≡ true
      → open_path os c (ambiguate path).1 flags s' ≡ (pos n, s'')
      → agfs_open os connections path flags s
        ≡ ((to_int (pos n), some (record { server = host; file = (ambiguate path).1 })), s'')
  unfolding agfs_open
  agfs_open_only host c n plain asked found up opened = rw (plain, choose, asked, found, up, opened)

  -- A name with a server is opened on that server alone.
  pub agfs_open_named :
      (b : ℕ) (host : Text) (c : ServerConnection) (n : ℕ) {s' : os.State}
      → (ambiguate path).0 ≡ b ∷ host
      → SortedMap.find (b ∷ host) connections ≡ some c
      → connected c ≡ true
      → open_path os c (ambiguate path).1 flags s ≡ (pos n, s')
      → agfs_open os connections path flags s
        ≡ ((to_int (pos n), some (record { server = b ∷ host; file = (ambiguate path).1 })), s')
  unfolding agfs_open
  agfs_open_named b host c n named found up opened = rw (named, choose, found, up, opened)
