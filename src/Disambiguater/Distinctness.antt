-- ===== src/Disambiguater/Distinctness.antt =====
-- A name of the merged listing stands for one file.
use ag_fs.Base.{
  ◌^◌, ◌<◌, ◌≡◌, refl, sym, ap, ◌∙◌, List, [], ◌∷◌, ◌++◌, length, none, some, some-injective, true,
  false, arith, Bool-cases, In, Unique, Unique-append, map, inl, inr, Bool,
}
use ag_fs.Stat.{Stat}
use ag_fs.Text
use ag_fs.Text.{Text, str_eq, str_eq_iff, str_eq_refl}
use ag_fs.SortedMap.{SortedMap, find}
use ag_fs.Disambiguater.{
  Disambiguater, Servers, ambiguate, file_entry, file_entries, braced, has_server, begin_brace,
  end_brace,
}
use ag_fs.Disambiguater.Invariant.{Distinct, IsOwnerList, IsWellFormed}
use ag_fs.SortedMap.Order.{IsSorted, Above, Values}
use ag_fs.Disambiguater.Listing.{
  In-file_entry, In-file_entries, find-Above, labelled, labelled-In, shown, named_server,
  ambiguate-shown,
}

-- Neither the path nor the server makes braces of its own.
pub record IsBraceFree (path server : Text) : Type 0 where
  pub no_begin : Text.find begin_brace path ≡ none
  pub no_end : Text.find end_brace (path ++ (begin_brace ++ server)) ≡ none
  pub short : length server < 2 ^ 64

-- Names that are the same name in the listing are of the same path, and have the same server in
-- them.
same_shown :
    (path path' server server' : Text) (servers servers' : Servers)
    → IsBraceFree path server
    → IsBraceFree path' server'
    → shown path servers server ≡ shown path' servers' server'
    → (named_server servers server ≡ named_server servers' server') × (path ≡ path')
same_shown path path' server server' servers servers' b b' e =
    let both : (named_server servers server, path) ≡ (named_server servers' server', path') =
      sym (ambiguate-shown [] path server servers b.no_begin b.no_end b.short)
      ∙ ap ambiguate e
      ∙ ambiguate-shown [] path' server' servers' b'.no_begin b'.no_end b'.short in
    (ap (λ (r : Text × Text). r.0) both, ap (λ (r : Text × Text). r.1) both)

absurd : {A : Type 0} {b : Bool} → b ≡ true → b ≡ false → A
absurd {A} {b} t f = let e : true ≡ false = sym t ∙ f in cc

-- No path, and no server that has it, makes braces of its own.
abbrev OwnersFree : Text → Servers → Type 0
OwnersFree path [] = Unit
OwnersFree path ((server, st) ∷ servers) = IsBraceFree path server × OwnersFree path servers

abbrev pub IsFree : SortedMap Servers → Type 0
IsFree [] = Unit
IsFree ((path, servers) ∷ files) = OwnersFree path servers × IsFree files

OwnersFree-In :
    (path server : Text) (st : Stat) (servers : Servers)
    → In (server, st) servers
    → OwnersFree path servers
    → IsBraceFree path server
OwnersFree-In path server st [] m h = elim m [ ]
OwnersFree-In path server st ((first, st') ∷ servers) (inl e) h =
    let q : server ≡ first = ap (λ (o : Text × Stat). o.0) e in rw (q) h.0
OwnersFree-In path server st (owner ∷ servers) (inr m) h =
    OwnersFree-In path server st servers m h.1

IsFree-find :
    (path : Text) (servers : Servers) (files : SortedMap Servers)
    → find path files ≡ some servers
    → IsFree files
    → OwnersFree path servers
unfolding find
IsFree-find path servers [] e h = cc
IsFree-find path servers ((key, owned) ∷ files) e h = elim (Bool-cases (str_eq key path)) [
  | inl same ↦
      let q : key ≡ path = (str_eq_iff key path).0 same in
      let e' : some owned ≡ some servers = rw same at e in
      let r : owned ≡ servers = some-injective owned servers e' in rw (sym q, sym r) h.0
  | inr other ↦ IsFree-find path servers files (rw other at e) h.1
]

has_server-In :
    (server : Text) (st : Stat) (servers : Servers)
    → In (server, st) servers
    → has_server server servers ≡ true
unfolding has_server
has_server-In server st [] m = elim m [ ]
has_server-In server st ((first, st') ∷ servers) (inl e) =
    let q : server ≡ first = ap (λ (o : Text × Stat). o.0) e in rw (q, str_eq_refl) refl
has_server-In server st ((first, st') ∷ servers) (inr m) =
    ground (arith, has_server-In server st servers m)

-- The names of a listing.
abbrev pub names : List (Text × Stat) → List Text
names = map (λ (entry : Text × Stat). entry.0)

pub names-append : (xs ys : List (Text × Stat)) → names (xs ++ ys) ≡ names xs ++ names ys
names-append [] ys = refl
names-append (x ∷ xs) ys = ap (λ l. x.0 ∷ l) (names-append xs ys)

names-In :
    (name : Text) (entries : List (Text × Stat))
    → In name (names entries)
    → (st : Stat) × In (name, st) entries
names-In name [] m = elim m [ ]
names-In name ((first, st) ∷ entries) (inl e) = (st, inl (λ i. (e i, st)))
names-In name (entry ∷ entries) (inr m) =
    let (st, there) = names-In name entries m in (st, inr there)

labelled-Unique :
    (path : Text) (servers : Servers)
    → OwnersFree path servers
    → Distinct servers
    → Unique (names (labelled path servers))
labelled-Unique path [] free apart = tt
labelled-Unique path ((server, st) ∷ servers) free apart = (
  λ m.
      let (st', there) = names-In (braced path server) (labelled path servers) m in
      let (server', owner, named) = labelled-In path (braced path server) st' servers there in
      let same =
        same_shown path path server server' [] [] free.0
          (OwnersFree-In path server' st' servers owner free.1) named in
      absurd (ap (λ x. has_server x servers) same.0 ∙ has_server-In server' st' servers owner)
        apart.0,
  labelled-Unique path servers free.1 apart.1,
)

file_entry-Unique :
    (path : Text) (servers : Servers)
    → OwnersFree path servers
    → Distinct servers
    → Unique (names (file_entry path servers))
unfolding file_entry
file_entry-Unique path [] free apart = tt
file_entry-Unique path (owner ∷ []) free apart = (λ m. elim m [ ], tt)
file_entry-Unique path (owner ∷ other ∷ servers) free apart =
    labelled-Unique path (owner ∷ other ∷ servers) free apart

-- What is listed for a path is not listed for the paths behind it.
entries_apart :
    (path name : Text) (servers : Servers) (files : SortedMap Servers)
    → Above path files
    → IsSorted files
    → OwnersFree path servers
    → IsFree files
    → In name (names (file_entry path servers))
    → In name (names (file_entries files))
    → ⊥
entries_apart path name servers files above sorted free frees m m' =
    let (st, first) = names-In name (file_entry path servers) m in
    let (st', later) = names-In name (file_entries files) m' in
    let (server, there, named) = In-file_entry path name st servers first in
    let (path', servers', server', found', there', named') =
      In-file_entries name st' files sorted later in
    let free' =
      OwnersFree-In path' server' st' servers' there'
        (IsFree-find path' servers' files found' frees) in
    let same =
      same_shown path path' server server' servers servers'
        (OwnersFree-In path server st servers there free) free' (sym named ∙ named') in
    absurd ((str_eq_iff path path').1 same.1) (find-Above path path' servers' files above found')

file_entries-Unique :
    (files : SortedMap Servers)
    → IsSorted files
    → Values IsOwnerList files
    → IsFree files
    → Unique (names (file_entries files))
unfolding file_entries
file_entries-Unique [] sorted owned free = tt
file_entries-Unique ((path, servers) ∷ files) sorted owned free =
    rw (names-append (file_entry path servers) (file_entries files)) (
      Unique-append (names (file_entry path servers)) (names (file_entries files))
        (file_entry-Unique path servers free.0 owned.0.1)
        (file_entries-Unique files sorted.1 owned.1 free.1)
        (λ name. entries_apart path name servers files sorted.0 sorted.1 free.0 free.1))

-- In a well-formed Disambiguater none of whose paths and servers makes braces of its own, no two
-- entries that the listing has for files have one name.
pub listing_distinct :
    (d : Disambiguater)
    → IsWellFormed d
    → IsFree d.filemap
    → Unique (names (file_entries d.filemap))
listing_distinct d w free = file_entries-Unique d.filemap w.files_sorted w.owned free
