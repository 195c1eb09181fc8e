-- ===== src/Disambiguater/Invariant.antt =====
-- What addFilepath does to a well-formed Disambiguater, on every branch.
use ag_fs.Base.{
  ◌≡◌, ◌≢◌, refl, true, false, ◌||◌, List, [], ◌∷◌, ◌++◌, Option, none, some, ℤ, pos, neg, is_neg,
  arith, if◌then◌else◌, Bool-cases, Option-cases, inl, inr,
}
use ag_fs.Constants.{eexist}
use ag_fs.Stat.{Stat, s_isdir}
use ag_fs.Text.{Text, str_eq, str_eq_iff, str_eq_refl}
use ag_fs.SortedMap.{find, assign, at_or_insert, find-assign, assign-assign}
use ag_fs.SortedMap.Order.{IsSorted, assign-IsSorted, Values, Values-assign, Values-find}
use ag_fs.Disambiguater.{
  Disambiguater, Servers, has_server, add_file, add_filepath, add_loop, add_filepaths,
}

abbrev or_nil : Option Servers → Servers
or_nil none = []
or_nil (some servers) = servers

-- The servers that have a file.
abbrev pub owners : Text → Disambiguater → Servers
owners path d = or_nil (find path d.filemap)

-- No server stands twice in the list.
abbrev pub Distinct : Servers → Type 0
Distinct [] = Unit
Distinct ((server, st) ∷ servers) = (has_server server servers ≡ false) × Distinct servers

abbrev pub IsOwnerList : Servers → Type 0
IsOwnerList servers = (servers ≢ []) × Distinct servers

pub record IsWellFormed (d : Disambiguater) : Type 0 where
  pub files_sorted : IsSorted d.filemap
  pub directories_sorted : IsSorted d.directorymap
  pub owned : Values IsOwnerList d.filemap

pub has_server-append :
    (server : Text) (xs ys : Servers)
    → has_server server (xs ++ ys) ≡ (has_server server xs || has_server server ys)
unfolding has_server
has_server-append server [] ys = refl
has_server-append server ((first, st) ∷ xs) ys = ground (arith, has_server-append server xs ys)

Distinct-append_one :
    (server : Text) (st : Stat) (xs : Servers)
    → has_server server xs ≡ false
    → Distinct xs
    → Distinct (xs ++ (server, st) ∷ [])
unfolding has_server
Distinct-append_one server st [] h d = (refl, tt)
Distinct-append_one server st ((first, st') ∷ xs) h d = ground (
  arith,
  has_server-append first xs ((server, st) ∷ []),
  str_eq_iff server first,
  str_eq_iff first server,
  Distinct-append_one server st xs,
)

-- A file that the server already has is refused with -EEXIST, and nothing changes; otherwise the
-- server becomes the last owner of the file.
pub add_file_lem :
    (path : Text) (st : Stat) (server : Text) (d : Disambiguater)
    → add_file path st server d ≡ (
        if has_server server (owners path d) then (neg eexist, d) else (
          pos 0,
          record d { filemap = assign path (owners path d ++ (server, st) ∷ []) d.filemap },
        ))
unfolding add_file at_or_insert
add_file_lem path st server d = elim (Option-cases (find path d.filemap)) [
  | inl absent ↦ rw absent (rw assign-assign)
  | inr (servers, e) ↦ rw e
]

append-ne-nil : (xs : Servers) (x : Text × Stat) → xs ++ x ∷ [] ≢ []
append-ne-nil [] x e = cc
append-ne-nil (y ∷ xs) x e = cc

owners-Distinct : (path : Text) (d : Disambiguater) → IsWellFormed d → Distinct (owners path d)
owners-Distinct path d w = elim (Option-cases (find path d.filemap)) [
  | inl absent ↦ rw absent tt
  | inr (servers, e) ↦ rw e ((Values-find IsOwnerList path servers d.filemap e w.owned).1)
]

add_file-IsWellFormed :
    (path : Text) (st : Stat) (server : Text) (d : Disambiguater)
    → IsWellFormed d
    → IsWellFormed (add_file path st server d).1
add_file-IsWellFormed path st server d w = elim (Bool-cases (has_server server (owners path d))) [
  | inl old ↦ rw (add_file_lem, old) w
  | inr new ↦
      let servers = owners path d ++ (server, st) ∷ [] in
      rw (add_file_lem, new)
        (record {
          files_sorted = assign-IsSorted path servers d.filemap w.files_sorted;
          directories_sorted = w.directories_sorted;
          owned =
              Values-assign IsOwnerList path servers d.filemap
                (
                  append-ne-nil (owners path d) (server, st),
                  Distinct-append_one server st (owners path d) new (owners-Distinct path d w),
                )
                w.owned;
        })
]

-- addFilepath keeps the invariant, also where it returns an error.
pub add_filepath-IsWellFormed :
    (path : Text) (st : Stat) (server : Text) (d : Disambiguater)
    → IsWellFormed d
    → IsWellFormed (add_filepath (path, st) server d).1
unfolding add_filepath
add_filepath-IsWellFormed path st server d w = elim (Bool-cases (s_isdir st.st_mode)) [
  | inl dir ↦ rw dir (record {
    files_sorted = w.files_sorted;
    directories_sorted = assign-IsSorted path st d.directorymap w.directories_sorted;
    owned = w.owned;
  })
  | inr file ↦ rw file (add_file-IsWellFormed path st server d w)
]

add_loop-IsWellFormed :
    (error : ℤ) (paths : List (Text × Stat)) (server : Text) (d : Disambiguater)
    → IsWellFormed d
    → IsWellFormed (add_loop error paths server d).1
unfolding add_loop
add_loop-IsWellFormed error [] server d w = w
add_loop-IsWellFormed error ((path, st) ∷ paths) server d w =
    let (error', d') = add_filepath (path, st) server d in
    let w' = add_filepath-IsWellFormed path st server d w in
    elim (Bool-cases (is_neg error')) [
      | inl failed ↦ rw failed w'
      | inr fine ↦ rw fine (add_loop-IsWellFormed error' paths server d' w')
    ]

-- Whatever a server's listing holds, addFilepaths keeps the invariant: the paths stay sorted, every
-- listed file has an owner, and no server owns a file twice.
pub add_filepaths-IsWellFormed :
    (paths : List (Text × Stat)) (server : Text) (d : Disambiguater)
    → IsWellFormed d
    → IsWellFormed (add_filepaths paths server d).1
unfolding add_filepaths
add_filepaths-IsWellFormed paths server d w = add_loop-IsWellFormed (pos 0) paths server d w

-- After addFilepath of a file that the server did not have, the server is the last owner of that
-- file, and every other file has the owners that it had.
pub owners-add_filepath :
    (path j : Text) (st : Stat) (server : Text) (d : Disambiguater)
    → s_isdir st.st_mode ≡ false
    → has_server server (owners path d) ≡ false
    → owners j (add_filepath (path, st) server d).1
      ≡ (if str_eq path j then owners path d ++ (server, st) ∷ [] else owners j d)
unfolding add_filepath
owners-add_filepath path j st server d file new =
    rw (file, add_file_lem, new, find-assign) (ground arith)

owned_after :
    (path : Text) (st : Stat) (server : Text) (d : Disambiguater)
    → s_isdir st.st_mode ≡ false
    → has_server server (owners path (add_filepath (path, st) server d).1) ≡ true
owned_after path st server d file = elim (Bool-cases (has_server server (owners path d))) [
  | inl old ↦ unfold add_filepath in rw (file, add_file_lem, old) old
  | inr new ↦
      rw (owners-add_filepath path path st server d file new, str_eq_refl, has_server-append, new)
        (unfold has_server in rw str_eq_refl)
]

-- A file that is added twice for one server is refused the second time with -EEXIST, and the second
-- call changes nothing.
pub add_filepath_twice :
    (path : Text) (st st' : Stat) (server : Text) (d : Disambiguater)
    → s_isdir st.st_mode ≡ false
    → s_isdir st'.st_mode ≡ false
    → let d' = (add_filepath (path, st) server d).1 in
      add_filepath (path, st') server d' ≡ (neg eexist, d')
add_filepath_twice path st st' server d h h' = refused _ (owned_after path st server d h)
  where
    refused :
        (d' : Disambiguater)
        → has_server server (owners path d') ≡ true
        → add_filepath (path, st') server d' ≡ (neg eexist, d')
    refused d' old = unfold add_filepath in rw (h', add_file_lem, old)
