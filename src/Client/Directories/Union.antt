-- ===== src/Client/Directories/Union.antt =====
-- agfs_readdir over all servers: the listing is that of the union of what they answer.
use mathlib.Core.Path.{subst}
use ag_fs.Base.{
  ◌≡◌, refl, sym, ap, ◌∙◌, true, false, List, [], ◌∷◌, ◌++◌, append_assoc, append-nil, map, none,
  Option, In, Unique, All, inl, inr, Bool-cases, ℤ, neg, is_neg, if◌then◌else◌,
}
use ag_fs.Monad.{◌>>=◌}
use ag_fs.Os.{Os}
use ag_fs.Constants.{enotdir}
use ag_fs.Stat.{Stat}
use ag_fs.Text.{Text, codes, str_eq, str_eq_iff}
use ag_fs.SortedMap
use ag_fs.SortedMap.Order.{IsSorted, keys, keys-Unique}
use ag_fs.Connection.{ServerConnection, readdir}
use ag_fs.Disambiguater.{
  Disambiguater, Servers, empty, has_server, add_filepaths, disambiguated_filepaths_with_stats,
  ambiguate,
}
use ag_fs.Disambiguater.Invariant.{owners, IsWellFormed, has_server-append}
use ag_fs.Disambiguater.Union.{file_names, owned_in, has_server-owned_in, owners-add_filepaths}
use ag_fs.Disambiguater.Directories.{last_directory, directories-add_filepaths}
use ag_fs.Client.{Connections}
use ag_fs.Client.Directories.{given, merge, merge_all, agfs_readdir}
use ag_fs.Client.Directories.Merging.{merge_all-IsWellFormed}

-- A server, and the entries that it answered.
abbrev pub Answer : Type 0
Answer = Text × List (Text × Stat)

-- The owners of a file, in the order of the servers, as far as they answered.
abbrev pub owners_of : Text → List Answer → Servers
owners_of j [] = []
owners_of j ((host, entries) ∷ more) = owned_in host j entries ++ owners_of j more

-- The directory of a name: that of the last server that answered one of this name, and of the
-- answers of that server the last; `old` if there is none.
abbrev pub directory_of : Text → Option Stat → List Answer → Option Stat
directory_of j old [] = old
directory_of j old ((host, entries) ∷ more) = directory_of j (last_directory j old entries) more

module _ (os : Os) (file : Text) where
  -- The servers whose readdir succeeds, when they are asked one after the other.
  unfoldable pub answers : Connections → os.State → List Answer
  answers [] s = []
  answers ((host, c) ∷ connections) s =
      let ((entries, error), s') = readdir os c file s in
      let more = answers connections s' in if is_neg error then more else (host, entries) ∷ more

  -- None of these hosts owns a file yet.
  abbrev Unlisted : List Text → Disambiguater → Type 0
  Unlisted hosts d =
      (host : Text) → In host hosts → (j : Text) → has_server host (owners j d) ≡ false

  abbrev pub Plain : List Answer → Type 0
  Plain = All (λ (a : Answer). Unique (file_names a.1))

  -- After a server's answer the servers that are still to come own nothing.
  after_answer-Unlisted :
      (host : Text) (entries : List (Text × Stat)) (hosts : List Text) (d d' : Disambiguater)
      → (In host hosts → ⊥)
      → Unlisted (host ∷ hosts) d
      → ((j : Text) → owners j d' ≡ owners j d ++ owned_in host j entries)
      → Unlisted hosts d'
  after_answer-Unlisted host entries hosts d d' apart new owned other m j =
      rw (owned j, has_server-append, new other (inr m) j)
        (has_server-owned_in other host j entries (elim (Bool-cases (str_eq host other)) [
          | inl same ↦
              let e : other ≡ host = sym ((str_eq_iff host other).0 same) in
              absurd (apart (subst (λ (x : Text). In x hosts) e m))
          | inr differ ↦ differ
        ]))

  merge_failed :
      (host : Text) (c : ServerConnection) (d : Disambiguater) (err : ℤ) (s : os.State)
      → is_neg (readdir os c file s).0.1 ≡ true
      → merge os host c file (d, err) s ≡ ((d, err), (readdir os c file s).1)
  unfolding merge ◌>>=◌
  merge_failed host c d err s failed = rw (failed) refl

  merge_fine :
      (host : Text) (c : ServerConnection) (d : Disambiguater) (err : ℤ) (s : os.State)
      → is_neg (readdir os c file s).0.1 ≡ false
      → merge os host c file (d, err) s ≡ (
        ((add_filepaths (readdir os c file s).0.0 host d).1, (readdir os c file s).0.1),
        (readdir os c file s).1,
      )
  unfolding merge ◌>>=◌
  merge_fine host c d err s fine = rw (fine) refl

  owners-merge_all :
      (connections : Connections) (d : Disambiguater) (err : ℤ) (s : os.State)
      → Unique (keys connections)
      → Unlisted (keys connections) d
      → Plain (answers connections s)
      → (j : Text)
      → owners j (merge_all os connections file (d, err) s).0.0
        ≡ owners j d ++ owners_of j (answers connections s)
  unfolding merge_all answers ◌>>=◌
  owners-merge_all [] d err s unique new plain j = sym (append-nil _)
  owners-merge_all ((host, c) ∷ connections) d err s unique new plain j =
      let answer = readdir os c file s in
      let after : (Disambiguater × ℤ) × os.State → Servers =
        λ r. owners j (merge_all os connections file r.0 r.1).0.0 in
      elim (Bool-cases (is_neg answer.0.1)) [
        | inl failed ↦ rw (failed) (
            ap after (merge_failed host c d err s failed)
            ∙ owners-merge_all connections d err answer.1 unique.1 (λ other m. new other (inr m))
                (rw failed at plain) j)
        | inr fine ↦
            let d' = (add_filepaths answer.0.0 host d).1 in
            let plain' : Unique (file_names answer.0.0) × Plain (answers connections answer.1) =
              rw fine at plain in
            let owned =
              owners-add_filepaths answer.0.0 host d plain'.0
                (λ path m. new host (inl refl) path) in
            rw (fine) (
              ap after (merge_fine host c d err s fine)
              ∙ owners-merge_all connections d' answer.0.1 answer.1 unique.1
                  (after_answer-Unlisted host answer.0.0 (keys connections) d d' unique.0 new owned)
                  plain'.1 j
              ∙ ap (λ l. l ++ owners_of j (answers connections answer.1)) (owned j)
              ∙ append_assoc (owners j d) (owned_in host j answer.0.0)
                  (owners_of j (answers connections answer.1)))
      ]

  directories-merge_all :
      (connections : Connections) (d : Disambiguater) (err : ℤ) (s : os.State)
      → Unique (keys connections)
      → Unlisted (keys connections) d
      → Plain (answers connections s)
      → (j : Text)
      → SortedMap.find j (merge_all os connections file (d, err) s).0.0.directorymap
        ≡ directory_of j (SortedMap.find j d.directorymap) (answers connections s)
  unfolding merge_all answers ◌>>=◌
  directories-merge_all [] d err s unique new plain j = refl
  directories-merge_all ((host, c) ∷ connections) d err s unique new plain j =
      let answer = readdir os c file s in
      let after : (Disambiguater × ℤ) × os.State → Option Stat =
        λ r. SortedMap.find j (merge_all os connections file r.0 r.1).0.0.directorymap in
      elim (Bool-cases (is_neg answer.0.1)) [
        | inl failed ↦ rw (failed) (
            ap after (merge_failed host c d err s failed)
            ∙ directories-merge_all connections d err answer.1 unique.1
                (λ other m. new other (inr m)) (rw failed at plain) j)
        | inr fine ↦
            let d' = (add_filepaths answer.0.0 host d).1 in
            let plain' : Unique (file_names answer.0.0) × Plain (answers connections answer.1) =
              rw fine at plain in
            let owned =
              owners-add_filepaths answer.0.0 host d plain'.0
                (λ path m. new host (inl refl) path) in
            rw (fine) (
              ap after (merge_fine host c d err s fine)
              ∙ directories-merge_all connections d' answer.0.1 answer.1 unique.1
                  (after_answer-Unlisted host answer.0.0 (keys connections) d d' unique.0 new owned)
                  plain'.1 j
              ∙ ap (λ old. directory_of j old (answers connections answer.1))
                  (directories-add_filepaths answer.0.0 host d plain'.0
                    (λ path m. new host (inl refl) path) j))
      ]

  -- agfs_readdir of a directory without a server in its name, over connections in the order of
  -- their hosts, none of which is empty, and servers none of which answers the name of a file
  -- twice: it fills in the two dots and the listing of a well-formed Disambiguater in which the
  -- owners of every file are exactly the servers that answered it, in the order of their hosts,
  -- each with the stat that it answered, and the directory of every name is the one that was
  -- answered last; a server whose readdir fails adds nothing to either.
  pub agfs_readdir_union :
      (connections : Connections) (path : Text) (s : os.State)
      → IsSorted connections
      → ambiguate path ≡ ([], file)
      → SortedMap.find [] connections ≡ none
      → Plain (answers connections s)
      → (d : Disambiguater) × IsWellFormed d
        × ((agfs_readdir os connections path s).0.1
            ≡ (codes ".", none)
              ∷ (codes "..", none)
              ∷ map given (disambiguated_filepaths_with_stats d))
        × ((j : Text) → owners j d ≡ owners_of j (answers connections s))
        × ((j : Text)
            → SortedMap.find j d.directorymap ≡ directory_of j none (answers connections s))
  unfolding agfs_readdir answers SortedMap.find
  agfs_readdir_union connections path s sorted plain_name no_host plain =
      rw (plain_name, no_host)
        (
          (merge_all os connections file (empty, neg enotdir) s).0.0,
          merge_all-IsWellFormed os file connections empty (neg enotdir) s
              (record { files_sorted = tt; directories_sorted = tt; owned = tt }),
          refl,
          owners-merge_all connections empty (neg enotdir) s (keys-Unique connections sorted)
              (λ host m j. unfold SortedMap.find in unfold has_server in refl) plain,
          directories-merge_all connections empty (neg enotdir) s (keys-Unique connections sorted)
              (λ host m j. unfold SortedMap.find in unfold has_server in refl) plain,
        )
