-- ===== src/Disambiguater/Listing.antt =====
-- The listing holds exactly the files of the servers, and its names lead back to them.
use ag_fs.Base.{
  ◌<◌, ◌^◌, ◌≡◌, sym, ap, ◌∙◌, ◌⊎◌, inl, inr, false, List, [], ◌∷◌, ◌++◌, length, append_assoc,
  append-nil, none, some, arith, map, Bool-cases, In, In-append_left, In-append_right, In-append,
}
use ag_fs.Stat.{Stat}
use ag_fs.Text.{Text, str_eq, str_eq_iff, str_lt, str_lt_irrefl, str_eq_refl}
use ag_fs.Text
use ag_fs.SortedMap.{SortedMap, find}
use ag_fs.SortedMap.Order.{IsSorted, Above}
use ag_fs.Disambiguater.{
  Disambiguater, Servers, begin_brace, end_brace, braced, file_entry, file_entries,
  disambiguated_filepaths_with_stats, ambiguate,
}
use ag_fs.Disambiguater.Ambiguate.{ambiguate-braced, ambiguate-plain}

-- The name under which the file of a server is listed.
abbrev pub shown : Text → Servers → Text → Text
shown path (owner ∷ []) server = path
shown path _ server = braced path server

abbrev pub labelled : Text → Servers → List (Text × Stat)
labelled path = map (λ (server, st). (braced path server, st))

In-labelled :
    (path server : Text) (st : Stat) (servers : Servers)
    → In (server, st) servers
    → In (braced path server, st) (labelled path servers)
In-labelled path server st [] m = elim m [ ]
In-labelled path server st (owner ∷ servers) (inl e) =
    inl (ap (λ (o : Text × Stat). (braced path o.0, o.1)) e)
In-labelled path server st (owner ∷ servers) (inr m) = inr (In-labelled path server st servers m)

pub labelled-In :
    (path name : Text) (st : Stat) (servers : Servers)
    → In (name, st) (labelled path servers)
    → (server : Text) × In (server, st) servers × (name ≡ braced path server)
labelled-In path name st [] m = elim m [ ]
labelled-In path name st ((first, st') ∷ servers) (inl e) =
    (first, inl (λ i. (first, (e i).1)), ap (λ (o : Text × Stat). o.0) e)
labelled-In path name st (owner ∷ servers) (inr m) =
    let (server, there, named) = labelled-In path name st servers m in (server, inr there, named)

file_entry-In :
    (path server : Text) (st : Stat) (servers : Servers)
    → In (server, st) servers
    → In (shown path servers server, st) (file_entry path servers)
unfolding file_entry
file_entry-In path server st [] m = elim m [ ]
file_entry-In path server st (owner ∷ []) (inl e) = inl (λ i. (path, (e i).1))
file_entry-In path server st (owner ∷ []) (inr m) = elim m [ ]
file_entry-In path server st (owner ∷ other ∷ servers) m =
    In-labelled path server st (owner ∷ other ∷ servers) m

pub In-file_entry :
    (path name : Text) (st : Stat) (servers : Servers)
    → In (name, st) (file_entry path servers)
    → (server : Text) × In (server, st) servers × (name ≡ shown path servers server)
unfolding file_entry
In-file_entry path name st [] m = elim m [ ]
In-file_entry path name st ((first, st') ∷ []) (inl e) =
    (first, inl (λ i. (first, (e i).1)), ap (λ (o : Text × Stat). o.0) e)
In-file_entry path name st (owner ∷ []) (inr m) = elim m [ ]
In-file_entry path name st (owner ∷ other ∷ servers) m =
    labelled-In path name st (owner ∷ other ∷ servers) m

file_entries-In :
    (path server : Text) (st : Stat) (servers : Servers) (files : SortedMap Servers)
    → find path files ≡ some servers
    → In (server, st) servers
    → In (shown path servers server, st) (file_entries files)
unfolding file_entries find
file_entries-In path server st servers [] e m = cc
file_entries-In path server st servers ((key, owned) ∷ files) e m =
    elim (Bool-cases (str_eq key path)) [
      | inl same ↦
          let q : key ≡ path = (str_eq_iff key path).0 same in
          let e' : some owned ≡ some servers = rw same at e in
          let r : owned ≡ servers = cc in
          rw (q, r)
            (In-append_left _ (file_entry path servers) _ (file_entry-In path server st servers m))
      | inr other ↦
          In-append_right _ (file_entry key owned) _
            (file_entries-In path server st servers files (rw other at e) m)
    ]

-- A key above the first one is not the first one.
pub find-Above :
    (key j : Text) (servers : Servers) (files : SortedMap Servers)
    → Above key files
    → find j files ≡ some servers
    → str_eq key j ≡ false
unfolding find
find-Above key j servers [] a e = cc
find-Above key j servers ((k, owned) ∷ files) a e =
    ground
      (arith, str_eq_iff k j, str_eq_iff key j, str_lt_irrefl j, find-Above key j servers files a.1)

pub In-file_entries :
    (name : Text) (st : Stat) (files : SortedMap Servers)
    → IsSorted files
    → In (name, st) (file_entries files)
    → (path : Text) × (servers : Servers) × (server : Text) × (find path files ≡ some servers)
      × In (server, st) servers
      × (name ≡ shown path servers server)
unfolding file_entries find
In-file_entries name st [] s m = elim m [ ]
In-file_entries name st ((key, owned) ∷ files) s m =
    elim (In-append (name, st) (file_entry key owned) (file_entries files) m) [
      | inl first ↦
          let (server, there, named) = In-file_entry key name st owned first in
          (key, owned, server, rw str_eq_refl, there, named)
      | inr later ↦
          let (path, servers, server, found, there, named) =
            In-file_entries name st files s.1 later in
          (
            path,
            servers,
            server,
            rw (find-Above key path servers files s.0 found) found,
            there,
            named,
          )
    ]

-- Every file of every server is listed: under its own name if no other server has it, and with the
-- server in braces otherwise.
pub listing_complete :
    (d : Disambiguater) (path server : Text) (st : Stat) (servers : Servers)
    → find path d.filemap ≡ some servers
    → In (server, st) servers
    → In (shown path servers server, st) (disambiguated_filepaths_with_stats d)
unfolding disambiguated_filepaths_with_stats
listing_complete d path server st servers found m =
    In-append_left _ (file_entries d.filemap) _
      (file_entries-In path server st servers d.filemap found m)

-- Whatever is listed is a directory, or the file of a server under the name that this file has in
-- the listing.
pub listing_sound :
    (d : Disambiguater) (name : Text) (st : Stat)
    → IsSorted d.filemap
    → In (name, st) (disambiguated_filepaths_with_stats d)
    → In (name, st) d.directorymap
      ⊎ ((path : Text) × (servers : Servers) × (server : Text) × (find path d.filemap
            ≡ some servers)
          × In (server, st) servers
          × (name ≡ shown path servers server))
unfolding disambiguated_filepaths_with_stats
listing_sound d name st s m =
    elim (In-append (name, st) (file_entries d.filemap) d.directorymap m) [
      | inl file ↦ inr (In-file_entries name st d.filemap s file)
      | inr directory ↦ inl directory
    ]

-- The server that `ambiguate` finds in the listed name of a file: none if the file has one owner.
abbrev pub named_server : Servers → Text → Text
named_server (owner ∷ []) server = []
named_server _ server = server

ambiguate-append-braced :
    (dir path server : Text)
    → Text.find begin_brace (dir ++ path) ≡ none
    → Text.find end_brace ((dir ++ path) ++ (begin_brace ++ server)) ≡ none
    → length server < 2 ^ 64
    → ambiguate (dir ++ braced path server) ≡ (server, dir ++ path)
ambiguate-append-braced dir path server h k lt =
    ap ambiguate (sym (append_assoc dir path (begin_brace ++ (server ++ end_brace))))
    ∙ ambiguate-braced (dir ++ path) server [] h k lt
    ∙ (λ i. (server, append-nil (dir ++ path) i))

-- A name from the listing of a directory, behind the path of that directory, leads back to the path
-- of the file, and, unless exactly one server has the file, to the server in the name; the name of a
-- file that one server has leads to no server. Path and server must hold no braces.
pub ambiguate-shown :
    (dir path server : Text) (servers : Servers)
    → Text.find begin_brace (dir ++ path) ≡ none
    → Text.find end_brace ((dir ++ path) ++ (begin_brace ++ server)) ≡ none
    → length server < 2 ^ 64
    → ambiguate (dir ++ shown path servers server) ≡ (named_server servers server, dir ++ path)
ambiguate-shown dir path server (owner ∷ []) h k lt = ambiguate-plain (dir ++ path) (inl h)
ambiguate-shown dir path server [] h k lt = ambiguate-append-braced dir path server h k lt
ambiguate-shown dir path server (owner ∷ other ∷ servers) h k lt =
    ambiguate-append-braced dir path server h k lt
