-- ===== src/Disambiguater.antt =====
-- src/disambiguater.cpp: the files and directories of several servers, merged into one listing. A
-- file that several servers have is listed once for each, under `name{:server:}`.
pub mod Ambiguate
pub mod Invariant
pub mod Listing
pub mod Distinctness
pub mod Union
pub mod Directories
pub mod Names
use ag_fs.Base.{
  ℕ, ◌+◌, Bool, true, false, ◌||◌, List, [], ◌∷◌, ◌++◌, length, Option, none, some, ℤ, pos, neg,
  is_neg, map, if◌then◌else◌,
}
use ag_fs.Constants.{eexist}
use ag_fs.Stat.{Stat, zero_stat, s_isdir}
use ag_fs.Text
use ag_fs.Text.{Text, codes, str_eq, sub_size, substr, substr_from}
use ag_fs.SortedMap
use ag_fs.SortedMap.{SortedMap, assign, at_or_insert}

abbrev pub begin_brace : Text
begin_brace = codes "{:"

abbrev pub end_brace : Text
end_brace = codes ":}"

-- The servers that have a file, with its stat on each.
abbrev pub Servers : Type 0
Servers = List (Text × Stat)

pub record Disambiguater : Type 0 where
  pub filemap : SortedMap Servers
  pub directorymap : SortedMap Stat

abbrev pub empty : Disambiguater
empty = record { filemap = []; directorymap = [] }

-- The loop that looks for the server among those of a path.
unfoldable pub has_server : Text → Servers → Bool
has_server server [] = false
has_server server ((first, st) ∷ servers) = str_eq first server || has_server server servers

-- The part of both overloads of addFilepath that is about files.
unfoldable pub add_file : Text → Stat → Text → Disambiguater → ℤ × Disambiguater
unfolding has_server
add_file path stbuf server d =
    let (servers, files) = at_or_insert path [] d.filemap in
    if has_server server servers
    then (neg eexist, record d { filemap = files })
    else (pos 0, record d { filemap = assign path (servers ++ (server, stbuf) ∷ []) files })

-- addFilepath(std::pair<std::string, struct stat>, std::string)
unfoldable pub add_filepath : Text × Stat → Text → Disambiguater → ℤ × Disambiguater
unfolding add_file
add_filepath (path, stbuf) server d =
    if s_isdir stbuf.st_mode
    then (pos 0, record d { directorymap = assign path stbuf d.directorymap })
    else add_file path stbuf server d

-- addFilepath(std::string, std::string)
unfoldable pub add_filepath_name : Text → Text → Disambiguater → ℤ × Disambiguater
unfolding add_file
add_filepath_name path server d = add_file path zero_stat server d

-- The loop of addFilepaths over the paths that are left; it stops at the first error.
add_loop : ℤ → List (Text × Stat) → Text → Disambiguater → ℤ × Disambiguater
add_loop error [] server d = (error, d)
add_loop error (value ∷ paths) server d =
    let (error', d') = add_filepath value server d in
    let rest = add_loop error' paths server d' in if is_neg error' then (error', d') else rest

unfoldable pub add_filepaths : List (Text × Stat) → Text → Disambiguater → ℤ × Disambiguater
unfolding add_loop add_filepath
add_filepaths paths server d = add_loop (pos 0) paths server d

-- The same for paths without a stat.
unfoldable pub add_names_loop : ℤ → List Text → Text → Disambiguater → ℤ × Disambiguater
add_names_loop error [] server d = (error, d)
add_names_loop error (path ∷ paths) server d =
    let (error', d') = add_filepath_name path server d in
    let rest = add_names_loop error' paths server d' in if is_neg error' then (error', d') else rest

unfoldable pub add_filepath_names : List Text → Text → Disambiguater → ℤ × Disambiguater
unfolding add_names_loop add_filepath_name
add_filepath_names paths server d = add_names_loop (pos 0) paths server d

-- path + BEGIN_BRACE + server + END_BRACE
abbrev pub braced : Text → Text → Text
braced path server = path ++ (begin_brace ++ (server ++ end_brace))

-- What one entry of the file map adds to the listing.
unfoldable pub file_entry : Text → Servers → List (Text × Stat)
file_entry path ((server, st) ∷ []) = (path, st) ∷ []
file_entry path servers = map (λ (server, st). (braced path server, st)) servers

unfoldable pub file_entries : SortedMap Servers → List (Text × Stat)
unfolding file_entry
file_entries [] = []
file_entries ((path, servers) ∷ files) = file_entry path servers ++ file_entries files

unfoldable pub disambiguated_filepaths_with_stats : Disambiguater → List (Text × Stat)
unfolding file_entries
disambiguated_filepaths_with_stats d = file_entries d.filemap ++ d.directorymap

unfoldable pub names_entry : Text → Servers → List Text
names_entry path ((server, st) ∷ []) = path ∷ []
names_entry path servers = map (λ (server, st). braced path server) servers

unfoldable pub names_entries : SortedMap Servers → List Text
unfolding names_entry
names_entries [] = []
names_entries ((path, servers) ∷ files) = names_entry path servers ++ names_entries files

unfoldable pub disambiguated_filepaths : Disambiguater → List Text
unfolding names_entries
disambiguated_filepaths d = names_entries d.filemap ++ map (λ (name, st). name) d.directorymap

unfoldable pub clear_paths : Disambiguater → Disambiguater
clear_paths d = record { filemap = []; directorymap = [] }

abbrev split_at : Text → Option ℕ → Option ℕ → Text × Text
split_at path (some begin_position) (some end_position) =
    let server_loc = begin_position + length begin_brace in
    (
      substr path server_loc (sub_size end_position server_loc),
      substr path 0 begin_position ++ substr_from path (end_position + length end_brace),
    )
split_at path _ _ = ([], path)

-- The server and the path that a name stands for; the server is empty if the name has no braces.
unfoldable pub ambiguate : Text → Text × Text
unfolding substr substr_from sub_size
ambiguate path = split_at path (Text.find begin_brace path) (Text.find end_brace path)
