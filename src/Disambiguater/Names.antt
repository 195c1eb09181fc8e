-- ===== src/Disambiguater/Names.antt =====
-- The listing without stats.
use ag_fs.Base.{◌≡◌, refl, ap, ◌∙◌, [], ◌∷◌, ◌++◌, map}
use ag_fs.Text.{Text}
use ag_fs.SortedMap.{SortedMap}
use ag_fs.Disambiguater.{
  Disambiguater, Servers, braced, file_entry, file_entries, disambiguated_filepaths_with_stats,
  names_entry, names_entries, disambiguated_filepaths,
}
use ag_fs.Disambiguater.Distinctness.{names, names-append}

names-braced :
    (path : Text) (servers : Servers)
    → names (map (λ (server, st). (braced path server, st)) servers)
      ≡ map (λ (server, st). braced path server) servers
names-braced path [] = refl
names-braced path ((server, st) ∷ servers) =
    ap (λ l. braced path server ∷ l) (names-braced path servers)

names-file_entry :
    (path : Text) (servers : Servers) → names (file_entry path servers) ≡ names_entry path servers
unfolding file_entry names_entry
names-file_entry path [] = refl
names-file_entry path (owner ∷ []) = refl
names-file_entry path (owner ∷ other ∷ servers) = names-braced path (owner ∷ other ∷ servers)

names-file_entries : (files : SortedMap Servers) → names (file_entries files) ≡ names_entries files
unfolding file_entries names_entries
names-file_entries [] = refl
names-file_entries ((path, servers) ∷ files) =
    names-append (file_entry path servers) (file_entries files)
    ∙ ap (λ l. l ++ names (file_entries files)) (names-file_entry path servers)
    ∙ ap (λ l. names_entry path servers ++ l) (names-file_entries files)

-- disambiguatedFilepaths lists exactly the names that disambiguatedFilepathsWithStats lists, in the
-- same order.
pub names-disambiguated_filepaths_with_stats :
    (d : Disambiguater) → names (disambiguated_filepaths_with_stats d) ≡ disambiguated_filepaths d
unfolding disambiguated_filepaths disambiguated_filepaths_with_stats
names-disambiguated_filepaths_with_stats d =
    names-append (file_entries d.filemap) d.directorymap
    ∙ ap (λ l. l ++ names d.directorymap) (names-file_entries d.filemap)
