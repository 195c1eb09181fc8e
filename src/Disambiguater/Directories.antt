-- ===== src/Disambiguater/Directories.antt =====
-- What addFilepaths adds to the directories.
use ag_fs.Base.{
  ◌≡◌, refl, ap, ◌∙◌, false, List, [], ◌∷◌, ◌&&◌, In, Unique, Option, some, inl, inr, Bool-cases, ℤ,
  pos, if◌then◌else◌,
}
use ag_fs.Stat.{Stat, s_isdir}
use ag_fs.Text.{Text, str_eq}
use ag_fs.SortedMap.{find, assign, find-assign}
use ag_fs.Disambiguater.{Disambiguater, has_server, add_filepath, add_loop, add_filepaths}
use ag_fs.Disambiguater.Invariant.{owners, add_file_lem}
use ag_fs.Disambiguater.Union.{
  file_names, New, add_filepath_directory, add_filepath_new, after_file-New,
}

-- The directory of this name in the entries, the last one if there are several, and `old` if there
-- is none.
abbrev pub last_directory : Text → Option Stat → List (Text × Stat) → Option Stat
last_directory j old [] = old
last_directory j old ((path, st) ∷ entries) =
    last_directory j (if s_isdir st.st_mode && str_eq path j then some st else old) entries

-- A file that is new leaves the directories alone.
add_filepath_file :
    (path : Text) (st : Stat) (server : Text) (d : Disambiguater)
    → s_isdir st.st_mode ≡ false
    → has_server server (owners path d) ≡ false
    → (add_filepath (path, st) server d).1.directorymap ≡ d.directorymap
unfolding add_filepath
add_filepath_file path st server d file new = rw (file, add_file_lem, new) refl

directories-add_loop :
    (entries : List (Text × Stat)) (error : ℤ) (server : Text) (d : Disambiguater)
    → Unique (file_names entries)
    → New server (file_names entries) d
    → (j : Text)
    → find j (add_loop error entries server d).1.directorymap
      ≡ last_directory j (find j d.directorymap) entries
unfolding add_loop
directories-add_loop [] error server d unique new j = refl
directories-add_loop ((path, st) ∷ entries) error server d unique new j =
    elim (Bool-cases (s_isdir st.st_mode)) [
      | inl dir ↦
          rw (dir, add_filepath_directory path st server d dir)
            (directories-add_loop entries (pos 0) server
                (record d { directorymap = assign path st d.directorymap }) (rw dir at unique)
                (rw dir at new) j
              ∙ ap (λ old. last_directory j old entries) (find-assign path j st d.directorymap))
      | inr file ↦
          let unique' : (In path (file_names entries) → ⊥) × Unique (file_names entries) =
            rw file at unique in
          let new' : New server (path ∷ file_names entries) d = rw file at new in
          let fresh : has_server server (owners path d) ≡ false = new' path (inl refl) in
          rw (file, add_filepath_new path st server d file fresh)
            (directories-add_loop entries (pos 0) server (add_filepath (path, st) server d).1
                unique'.1 (after_file-New path st (file_names entries) server d file unique'.0 new')
                j
              ∙ ap (λ m. last_directory j (find j m) entries)
                  (add_filepath_file path st server d file fresh))
    ]

-- If no file stands twice in a server's entries, and the server owns none of the files yet, then
-- after addFilepaths the directory of every name is the last one in the entries, and if there is
-- none, what it was.
pub directories-add_filepaths :
    (entries : List (Text × Stat)) (server : Text) (d : Disambiguater)
    → Unique (file_names entries)
    → New server (file_names entries) d
    → (j : Text)
    → find j (add_filepaths entries server d).1.directorymap
      ≡ last_directory j (find j d.directorymap) entries
unfolding add_filepaths
directories-add_filepaths entries server d = directories-add_loop entries (pos 0) server d
