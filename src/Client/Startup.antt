-- ===== src/Client/Startup.antt =====
-- src/agfs.cpp: the part of main that connects to a server for each key file, the loop of
-- heartbeatThread, and agfs_destroy with the threads that it joins.
pub mod KeyFiles
pub mod Destroying
use ag_fs.Base.{ℕ, zero, suc, Bool, ◌&&◌, not, List, [], ◌∷◌, Option, none, some, if◌then◌else◌}
use ag_fs.Monad.{M, pure, ◌>>=◌, ◌>>◌}
use ag_fs.Os.{Os}
use ag_fs.Text.{Text, codes, str_eq}
use ag_fs.SortedMap.{insert}
use ag_fs.Connection.{ServerConnection, copy, connected, stopped, stop, heartbeat}
use ag_fs.Connection.Connect.{Network, connect, server_connection}
use ag_fs.Client.{Connections}
use ag_fs.Client.Threads.{Pc, join}
use ag_fs.Server.Keys.{open_input, extract_record}

-- EXTENSION
abbrev pub extension : Text
extension = codes ".agkey"

-- An entry of the key directory: whether it is a regular file, its extension, and its contents if
-- it can be opened.
pub record KeyEntry : Type 0 where
  pub is_regular_file : Bool
  pub extension_of : Text
  pub contents : Option Text

-- keyfile >> hostname; keyfile >> port; keyfile >> key
unfoldable pub read_key_file : Text → Text × Text × Text
read_key_file text = (extract_record ([], [], []) (open_input (some text))).0

-- Where the heartbeat thread of each host stands when its join begins.
abbrev pub Places : Type 0
Places = Text → Pc

-- The connections, with the place of their threads.
abbrev pub Joined : Type 0
Joined = List (Text × ServerConnection × Pc)

module _ (os : Os) (net : Network os) where
  -- connections.insert of a copy: a host that is there keeps its connection.
  abbrev pub insert_connected : Text → ServerConnection → Connections → Connections
  insert_connected hostname c connections =
      if connected c && not (stopped c) then insert hostname (copy c) connections else connections

  abbrev pub add_key_file : Text → Connections → M os.State Connections
  add_key_file text connections =
      let (hostname, port, key) = read_key_file text in
      do
        c ← server_connection os net hostname port key
        pure (insert_connected hostname c connections)

  abbrev pub add_opened : Option Text → Connections → M os.State Connections
  add_opened none connections = pure connections
  add_opened (some text) connections = add_key_file text connections

  -- The loop of main over the entries of the key directory.
  unfoldable pub connect_all : List KeyEntry → Connections → M os.State Connections
  connect_all [] connections = pure connections
  connect_all (entry ∷ entries) connections = do
    connections' ←
        if entry.is_regular_file && str_eq entry.extension_of extension
        then add_opened entry.contents connections
        else pure connections
    connect_all entries connections'

  -- One round of heartbeatThread, after its sleep.
  unfoldable pub beat : ServerConnection → M os.State ServerConnection
  beat c = if not (connected c) then connect os net c else do (_, c') ← heartbeat os c; pure c'

  -- `rounds` rounds of heartbeatThread; it ends when the connection is closed.
  unfoldable pub heartbeat_thread : ℕ → ServerConnection → M os.State ServerConnection
  unfolding beat
  heartbeat_thread zero c = pure c
  heartbeat_thread (suc rounds) c =
      if c.closed then pure c else do c' ← beat c; heartbeat_thread rounds c'

  -- The two loops of agfs_destroy, with the threads at rest between them: what a thread does there is
  -- in the choice of `places`, and Threads has every other order. A thread of a stopped connection
  -- has four actions left at most.
  unfoldable pub stop_all : Connections → M os.State Connections
  stop_all [] = pure []
  stop_all ((host, c) ∷ connections) = do
    (_, c') ← stop os c
    rest ← stop_all connections
    pure ((host, c') ∷ rest)

  unfoldable pub join_all : Places → Connections → M os.State Joined
  join_all places [] = pure []
  join_all places ((host, c) ∷ connections) = do
    (c', pc) ← join os net 4 c (places host)
    rest ← join_all places connections
    pure ((host, c', pc) ∷ rest)

  unfoldable pub agfs_destroy : Places → Connections → M os.State Joined
  unfolding stop_all join_all
  agfs_destroy places connections = do
    stopped_connections ← stop_all connections
    join_all places stopped_connections
