-- ===== src/Client/Main/Ready.antt =====
-- The connections that main has when the file system is mounted.
use ag_fs.Base.{
  ◌≡◌, refl, false, true, ◌&&◌, ◌||◌, not, Bool, Unique, List, [], ◌∷◌, none, some, Option,
  Bool-cases, Option-cases, inl, inr, arith,
}
use ag_fs.Monad.{◌>>=◌}
use ag_fs.Os.{Os}
use ag_fs.Text.{Text, str_eq, str_eq_iff}
use ag_fs.SortedMap.{insert, assign, find}
use ag_fs.SortedMap.Order.{IsSorted, keys, keys-Unique, assign-IsSorted}
use ag_fs.Connection.{ServerConnection, connected, stopped}
use ag_fs.Connection.Connect.{Network, connect, server_connection, fresh}
use ag_fs.Client.{Connections}
use ag_fs.Client.Startup.{
  KeyEntry, extension, insert_connected, add_opened, connect_all, read_key_file,
}
use ag_fs.Client.Local.{LocalCalls}
use ag_fs.Client.Main.{KeyDirectory, Startup, exits, mounts, client_main}

-- The object is for this host, and its heartbeat thread is not to end.
abbrev IsFor : Text → ServerConnection → Type 0
IsFor host c = (c.hostname ≡ host) × (c.closed ≡ false)

-- Every entry of the map is the connection of its host, and connected.
abbrev Ready : Connections → Type 0
Ready [] = Unit
Ready ((host, c) ∷ m) = (IsFor host c × (connected c ≡ true)) × Ready m

Ready-assign :
    (host : Text) (c : ServerConnection) (m : Connections)
    → IsFor host c
    → connected c ≡ true
    → Ready m
    → Ready (assign host c m)
unfolding assign
Ready-assign host c [] h up r = ((h, up), tt)
Ready-assign host c ((k, d) ∷ m) h up r =
    ground (arith, Ready-assign host c m h up r.1, str_eq_iff k host)

-- connect changes no member but the socket.
connect-IsFor :
    (os : Os) (net : Network os) (host : Text) (c : ServerConnection) (s : os.State)
    → IsFor host c
    → IsFor host (connect os net c s).0
unfolding connect ◌>>=◌
connect-IsFor os net host c s h = (ground (arith, h.0), ground (arith, h.1))

-- The map is in order, and its entries are ready.
pub record IsReady (connections : Connections) : Type 0 where
  sorted : IsSorted connections
  ready : Ready connections

insert-IsReady :
    (host : Text) (c : ServerConnection) (m : Connections)
    → IsFor host c
    → connected c ≡ true
    → IsReady m
    → IsReady (insert host c m)
unfolding insert
insert-IsReady host c m h up g = elim (Option-cases (find host m)) [
  | inl new ↦
      rw (new, insert)
        (record {
          sorted = assign-IsSorted host c m g.sorted;
          ready = Ready-assign host c m h up g.ready;
        })
  | inr old ↦ rw (old.1, insert) g
]

module _ (os : Os) (net : Network os) where
  IsReady-insert :
      (host : Text) (c : ServerConnection) (m : Connections)
      → IsFor host c
      → IsReady m
      → IsReady (insert_connected os net host c m)
  IsReady-insert host c m h g = elim (Bool-cases (connected c && not (stopped c))) [
    | inl up ↦ rw (up) (insert-IsReady host c m h (ground arith) g)
    | inr down ↦ rw (down) g
  ]

  IsReady-add_opened :
      (contents : Option Text) (m : Connections) (s : os.State)
      → IsReady m
      → IsReady (add_opened os net contents m s).0
  unfolding ◌>>=◌ server_connection
  IsReady-add_opened none m s g = g
  IsReady-add_opened (some text) m s g =
      let (host, port, key) = read_key_file text in
      IsReady-insert host _ m
        (connect-IsFor os net host (fresh os net host port key) s (refl, refl)) g

  IsReady-connect_all :
      (entries : List KeyEntry) (m : Connections) (s : os.State)
      → IsReady m
      → IsReady (connect_all os net entries m s).0
  unfolding connect_all ◌>>=◌
  IsReady-connect_all [] m s g = g
  IsReady-connect_all (entry ∷ entries) m s g =
      elim (Bool-cases (entry.is_regular_file && str_eq entry.extension_of extension)) [
        | inl key ↦
            rw (key) (IsReady-connect_all entries _ _ (IsReady-add_opened entry.contents m s g))
        | inr other ↦ rw (other) (IsReady-connect_all entries m s g)
      ]

  -- Whether there is a connection to a host, and whether a host stands in a list.
  abbrev is_there : Option ServerConnection → Bool
  is_there none = false
  is_there (some c) = true

  abbrev pub has_connection : Text → Connections → Bool
  has_connection host connections = is_there (find host connections)

  abbrev pub listed : Text → List Text → Bool
  listed host [] = false
  listed host (first ∷ hosts) = str_eq first host || listed host hosts

  -- What main is to come to, by whether the key directory is there: an exit with code 1 if it is
  -- not; and if it is, a mount with connections that are ready, and a heartbeat thread for a host,
  -- and no second one, exactly if there is a connection to it.
  abbrev pub Started : Bool → Startup os → Type 0
  Started false (exits code) = code ≡ 1
  Started false (mounts connections threads table) = ⊥
  Started true (exits code) = ⊥
  Started true (mounts connections threads table) =
      IsReady connections
      × Unique threads
      × ((host : Text) → listed host threads ≡ has_connection host connections)

  listed-keys :
      (host : Text) (connections : Connections)
      → listed host (keys connections) ≡ has_connection host connections
  unfolding find
  listed-keys host [] = refl
  listed-keys host ((first, c) ∷ connections) = elim (Bool-cases (str_eq first host)) [
    | inl same ↦ rw (same) refl
    | inr other ↦ rw (other) (listed-keys host connections)
  ]

  -- If the key directory is not there, main exits with code 1. If it is, main mounts the file
  -- system, whatever the key files hold and whatever the system answers: the connections are in the
  -- order of their hosts, each is connected, not closed and for its host, and exactly the hosts with
  -- a connection have a heartbeat thread, each one.
  pub client_main-Started :
      (calls : LocalCalls os) (dir : KeyDirectory os) (s : os.State)
      → Started (dir.exists s).0 (client_main os calls net dir s).0
  unfolding client_main ◌>>=◌
  client_main-Started calls dir s = elim (Bool-cases (dir.exists s).0) [
    | inl there ↦
        let ready =
          IsReady-connect_all (dir.entries (dir.exists s).1).0 [] (dir.entries (dir.exists s).1).1
            (record { sorted = tt; ready = tt }) in
        rw (there) (ready, keys-Unique _ ready.sorted, λ host. listed-keys host _)
    | inr missing ↦ rw (missing) refl
  ]
