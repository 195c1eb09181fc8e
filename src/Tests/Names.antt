-- ===== src/Tests/Names.antt =====
-- Names with and without braces, and the listing of two servers that share a file.
use ag_fs.Base.{◌≡◌, refl, ◌⊎◌, inl, inr, List, [], ◌∷◌, some, In, Unique, arith}
use ag_fs.Stat.{Stat}
use ag_fs.Text.{Text, codes, str_eq, str_lt, find}
use ag_fs.SortedMap
use ag_fs.SortedMap.{assign, at_or_insert}
use ag_fs.Disambiguater.{
  Disambiguater, Servers, empty, file_entries, add_filepaths, disambiguated_filepaths,
  disambiguated_filepaths_with_stats, ambiguate,
}
use ag_fs.Disambiguater.Invariant.{IsWellFormed, add_filepaths-IsWellFormed}
use ag_fs.Disambiguater.Distinctness.{IsFree, names, listing_distinct}
use ag_fs.Disambiguater.Listing.{shown, listing_complete, listing_sound, ambiguate-shown}
use ag_fs.Tests.Machine.{file_stat, dir_stat}

-- A closing brace before the opening one: the length of the server wraps, and the rest of the name
-- is taken for the server.
ambiguate_wrapped : ambiguate (codes "a:}b{:srv") ≡ (codes "srv", codes "a:}bb{:srv")
unfolding ambiguate find
ambiguate_wrapped = refl

empty-IsWellFormed : IsWellFormed empty
empty-IsWellFormed = record { files_sorted = tt; directories_sorted = tt; owned = tt }

abbrev from_a : List (Text × Stat)
from_a = (codes "x", file_stat) ∷ (codes "d", dir_stat) ∷ (codes "c", file_stat) ∷ []

one : Disambiguater
unfolding add_filepaths str_eq str_lt assign at_or_insert
one = (add_filepaths from_a (codes "A") empty).1

two : Disambiguater
unfolding one
two = (add_filepaths ((codes "x", dir_stat) ∷ (codes "c", file_stat) ∷ []) (codes "B") one).1

one-IsWellFormed : IsWellFormed one
unfolding one
one-IsWellFormed = add_filepaths-IsWellFormed from_a (codes "A") empty empty-IsWellFormed

two-IsWellFormed : IsWellFormed two
unfolding two
two-IsWellFormed =
    add_filepaths-IsWellFormed ((codes "x", dir_stat) ∷ (codes "c", file_stat) ∷ []) (codes "B") one
      one-IsWellFormed

add_filepaths-IsWellFormed_example : IsWellFormed (add_filepaths from_a (codes "A") empty).1
add_filepaths-IsWellFormed_example =
    add_filepaths-IsWellFormed from_a (codes "A") empty
      (record { files_sorted = tt; directories_sorted = tt; owned = tt })

two_listed :
    disambiguated_filepaths two
    ≡ codes "c{:A:}" ∷ codes "c{:B:}" ∷ codes "x" ∷ codes "d" ∷ codes "x" ∷ []
unfolding two disambiguated_filepaths SortedMap.find
two_listed = refl

listing_complete_example : In (codes "c{:B:}", file_stat) (disambiguated_filepaths_with_stats two)
unfolding two SortedMap.find
listing_complete_example =
    listing_complete two (codes "c") (codes "B") file_stat
      ((codes "A", file_stat) ∷ (codes "B", file_stat) ∷ []) refl (inr (inl refl))

listing_sound_example :
    In (codes "d", dir_stat) two.directorymap
    ⊎ ((path : Text) × (servers : List (Text × Stat)) × (server : Text) × (SortedMap.find path
            two.filemap
          ≡ some servers)
        × In (server, dir_stat) servers
        × (codes "d" ≡ shown path servers server))
unfolding two disambiguated_filepaths_with_stats SortedMap.find
listing_sound_example =
    listing_sound two (codes "d") dir_stat (two-IsWellFormed.files_sorted)
      (inr (inr (inr (inl refl))))

ambiguate-shown_example : ambiguate (codes "/d/c{:B:}") ≡ (codes "B", codes "/d/c")
unfolding find
ambiguate-shown_example =
    ambiguate-shown (codes "/d/") (codes "c") (codes "B")
      ((codes "A", file_stat) ∷ (codes "B", file_stat) ∷ []) refl refl (omega arith)

-- Both paths are of one character, and both servers too.
abbrev two_files : SortedMap.SortedMap Servers
two_files =
    (codes "c", (codes "A", file_stat) ∷ (codes "B", file_stat) ∷ [])
    ∷ (codes "x", (codes "A", file_stat) ∷ [])
    ∷ []

two_files-IsFree : IsFree two_files
unfolding find
two_files-IsFree = (
  (
    record { no_begin = refl; no_end = refl; short = omega arith },
    (record { no_begin = refl; no_end = refl; short = omega arith }, tt),
  ),
  ((record { no_begin = refl; no_end = refl; short = omega arith }, tt), tt),
)

two-files : two.filemap ≡ two_files
unfolding two SortedMap.find
two-files = refl

listing_distinct_example : Unique (names (file_entries two.filemap))
listing_distinct_example = listing_distinct two two-IsWellFormed (rw two-files two_files-IsFree)
