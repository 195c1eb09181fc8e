-- ===== src/Client/Attributes/First.antt =====
-- Which server answers agfs_getattr and agfs_access.
use ag_fs.Base.{◌≡◌, refl, true, false, [], ◌∷◌, ◌++◌, none, ℤ, pos, is_neg, All, arith}
use ag_fs.Monad.{◌>>=◌}
use ag_fs.Os.{Os}
use ag_fs.Stat.{Stat, zero_stat}
use ag_fs.Text.{Text}
use ag_fs.SortedMap
use ag_fs.Connection.{ServerConnection, connected, getattr}
use ag_fs.Disambiguater.{ambiguate}
use ag_fs.Client.{Connections, connected_entry}
use ag_fs.Client.Attributes.{first_getattr, agfs_getattr}

module _ (os : Os) (file : Text) where
  -- The connections tried one after the other, from the state `s` and the last result `r` to the
  -- state `s'` and the last result `r'`: each is closed and passed over, or its getattr fails.
  pub data Failed : Connections → Stat × ℤ → os.State → Stat × ℤ → os.State → Type 0 where
    done : (r : Stat × ℤ) (s : os.State) → Failed [] r s r s
    skip :
        {host : Text} {c : ServerConnection} {more : Connections} {r r' : Stat × ℤ}
        {s s' : os.State}
        → connected c ≡ false
        → Failed more r s r' s'
        → Failed ((host, c) ∷ more) r s r' s'
    miss :
        {host : Text} {c : ServerConnection} {more : Connections} {r r' q : Stat × ℤ}
        {s s' t : os.State}
        → connected c ≡ true
        → getattr os c file s ≡ (q, t)
        → is_neg q.1 ≡ true
        → Failed more q t r' s'
        → Failed ((host, c) ∷ more) r s r' s'

  -- The loop of agfs_getattr answers with the first connected server whose getattr succeeds, in the
  -- state that the failed calls before it left; the servers behind it are not asked.
  pub first_getattr_found :
      (host : Text) (c : ServerConnection) (after : Connections) {before : Connections}
      {r r' : Stat × ℤ} {s s' : os.State}
      → Failed before r s r' s'
      → connected c ≡ true
      → is_neg (getattr os c file s').0.1 ≡ false
      → first_getattr os (before ++ (host, c) ∷ after) file r s ≡ getattr os c file s'
  unfolding first_getattr ◌>>=◌
  first_getattr_found host c after (done r s) up ok = rw (up, ok)
  first_getattr_found host c after (skip down rest) up ok =
      rw down (first_getattr_found host c after rest up ok)
  first_getattr_found host c after (miss live called neg rest) up ok =
      rw (live, called, neg) (first_getattr_found host c after rest up ok)

  -- If no server succeeds, the result is that of the last one that was asked.
  pub first_getattr-Failed :
      {all : Connections} {r r' : Stat × ℤ} {s s' : os.State}
      → Failed all r s r' s'
      → first_getattr os all file r s ≡ (r', s')
  unfolding first_getattr ◌>>=◌
  first_getattr-Failed (done r s) = refl
  first_getattr-Failed (skip down rest) = rw down (first_getattr-Failed rest)
  first_getattr-Failed (miss live called neg rest) =
      rw (live, called, neg) (first_getattr-Failed rest)

abbrev pub Down : Text × ServerConnection → Type 0
Down (host, c) = connected c ≡ false

find-Down :
    (server : Text) (connections : Connections)
    → All Down connections
    → connected_entry (SortedMap.find server connections) ≡ none
unfolding SortedMap.find
find-Down server [] down = refl
find-Down server ((host, c) ∷ more) down = ground (arith, find-Down server more down.1)

All-Down :
    (os : Os) (file : Text) (connections : Connections) (r : Stat × ℤ) (s : os.State)
    → All Down connections
    → first_getattr os connections file r s ≡ (r, s)
unfolding first_getattr
All-Down os file [] r s down = refl
All-Down os file ((host, c) ∷ more) r s down = rw (down.0) (All-Down os file more r s down.1)

-- With no connection that is up, agfs_getattr reports success for every path, with a zeroed stat,
-- and asks nobody.
pub agfs_getattr-Down :
    (os : Os) (connections : Connections) (path : Text) (s : os.State)
    → All Down connections
    → agfs_getattr os connections path s ≡ ((pos 0, zero_stat), s)
unfolding agfs_getattr
agfs_getattr-Down os connections path s down = rw (
  find-Down (ambiguate path).0 connections down,
  All-Down os (ambiguate path).1 connections (zero_stat, pos 0) s down,
)
