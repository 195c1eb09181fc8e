-- ===== src/Disambiguater/Union.antt =====
-- What addFilepaths adds to the owners of each file.
use mathlib.Core.Path.{subst}
use ag_fs.Base.{
  ◌≡◌, refl, sym, ap, ◌∙◌, true, false, List, [], ◌∷◌, ◌++◌, append_assoc, append-nil, In, Unique,
  inl, inr, Bool-cases, ℤ, pos, arith, if◌then◌else◌,
}
use ag_fs.Stat.{Stat, s_isdir}
use ag_fs.Text.{Text, str_eq, str_eq_iff}
use ag_fs.SortedMap.{assign}
use ag_fs.Disambiguater.{Disambiguater, Servers, has_server, add_filepath, add_loop, add_filepaths}
use ag_fs.Disambiguater.Invariant.{owners, owners-add_filepath, add_file_lem}

-- The names of a server's entries that are no directories.
abbrev pub file_names : List (Text × Stat) → List Text
file_names [] = []
file_names ((path, st) ∷ entries) =
    if s_isdir st.st_mode then file_names entries else path ∷ file_names entries

-- What a server's entries say of the owners of one file.
abbrev pub owned_in : Text → Text → List (Text × Stat) → Servers
owned_in server j [] = []
owned_in server j ((path, st) ∷ entries) =
    if s_isdir st.st_mode
    then owned_in server j entries
    else if str_eq path j
    then (server, st) ∷ owned_in server j entries
    else owned_in server j entries

-- A server that differs owns nothing in these entries.
pub has_server-owned_in :
    (other server j : Text) (entries : List (Text × Stat))
    → str_eq server other ≡ false
    → has_server other (owned_in server j entries) ≡ false
unfolding has_server
has_server-owned_in other server j [] differ = refl
has_server-owned_in other server j ((path, st) ∷ entries) differ =
    ground (arith, has_server-owned_in other server j entries differ)

-- The server owns none of these files yet.
abbrev pub New : Text → List Text → Disambiguater → Type 0
New server names d = (path : Text) → In path names → has_server server (owners path d) ≡ false

pub add_filepath_directory :
    (path : Text) (st : Stat) (server : Text) (d : Disambiguater)
    → s_isdir st.st_mode ≡ true
    → add_filepath (path, st) server d
      ≡ (pos 0, record d { directorymap = assign path st d.directorymap })
unfolding add_filepath
add_filepath_directory path st server d dir = rw (dir) refl

-- A file that is added for the first time is added without an error.
pub add_filepath_new :
    (path : Text) (st : Stat) (server : Text) (d : Disambiguater)
    → s_isdir st.st_mode ≡ false
    → has_server server (owners path d) ≡ false
    → (add_filepath (path, st) server d).0 ≡ pos 0
unfolding add_filepath
add_filepath_new path st server d file new = rw (file, add_file_lem, new) refl

-- The server is new to the other files as it was.
pub after_file-New :
    (path : Text) (st : Stat) (names : List Text) (server : Text) (d : Disambiguater)
    → s_isdir st.st_mode ≡ false
    → (In path names → ⊥)
    → New server (path ∷ names) d
    → New server names (add_filepath (path, st) server d).1
after_file-New path st names server d file apart new q m = elim (Bool-cases (str_eq path q)) [
  | inl same ↦
      let e : q ≡ path = sym ((str_eq_iff path q).0 same) in
      absurd (apart (subst (λ (x : Text). In x names) e m))
  | inr other ↦
      rw (owners-add_filepath path q st server d file (new path (inl refl)), other) (new q (inr m))
]

-- The step for a file.
owners_step :
    (path j : Text) (st : Stat) (server : Text) (d : Disambiguater) (more : Servers)
    → s_isdir st.st_mode ≡ false
    → has_server server (owners path d) ≡ false
    → owners j (add_filepath (path, st) server d).1 ++ more
      ≡ owners j d ++ (if str_eq path j then (server, st) ∷ more else more)
owners_step path j st server d more file new = elim (Bool-cases (str_eq path j)) [
  | inl same ↦
      let e : path ≡ j = (str_eq_iff path j).0 same in
      rw (owners-add_filepath path j st server d file new, same)
        (append_assoc (owners path d) ((server, st) ∷ []) more
          ∙ ap (λ (x : Text). owners x d ++ (server, st) ∷ more) e)
  | inr other ↦ rw (owners-add_filepath path j st server d file new, other) refl
]

owners-add_loop :
    (entries : List (Text × Stat)) (error : ℤ) (server : Text) (d : Disambiguater)
    → Unique (file_names entries)
    → New server (file_names entries) d
    → (j : Text)
    → owners j (add_loop error entries server d).1 ≡ owners j d ++ owned_in server j entries
unfolding add_loop
owners-add_loop [] error server d unique new j = sym (append-nil _)
owners-add_loop ((path, st) ∷ entries) error server d unique new j =
    elim (Bool-cases (s_isdir st.st_mode)) [
      | inl dir ↦
          rw (dir, add_filepath_directory path st server d dir)
            (owners-add_loop entries (pos 0) server
              (record d { directorymap = assign path st d.directorymap }) (rw dir at unique)
              (rw dir at new) j)
      | inr file ↦
          let unique' : (In path (file_names entries) → ⊥) × Unique (file_names entries) =
            rw file at unique in
          let new' : New server (path ∷ file_names entries) d = rw file at new in
          let fresh : has_server server (owners path d) ≡ false = new' path (inl refl) in
          rw (file, add_filepath_new path st server d file fresh)
            (owners-add_loop entries (pos 0) server (add_filepath (path, st) server d).1 unique'.1
                (after_file-New path st (file_names entries) server d file unique'.0 new') j
              ∙ owners_step path j st server d (owned_in server j entries) file fresh)
    ]

-- If no file stands twice in a server's entries, and the server owns none of the files yet, then
-- after addFilepaths the owners of every file are those it had, and this server behind them if the
-- file is in its entries.
pub owners-add_filepaths :
    (entries : List (Text × Stat)) (server : Text) (d : Disambiguater)
    → Unique (file_names entries)
    → New server (file_names entries) d
    → (j : Text)
    → owners j (add_filepaths entries server d).1 ≡ owners j d ++ owned_in server j entries
unfolding add_filepaths
owners-add_filepaths entries server d = owners-add_loop entries (pos 0) server d
