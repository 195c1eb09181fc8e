-- ===== src/Keygen/Run.antt =====
-- A whole run of agfs-keygen: what it leaves in the key file and in the list of keys.
use ag_fs.Base.{
  ℕ, zero, suc, ◌+◌, ◌*◌, ◌≤◌, ◌≡◌, refl, sym, ap, ◌∙◌, Bool, true, false, not, ◌⊎◌, inl, inr, List,
  [], ◌∷◌, ◌++◌, append_assoc, append-nil, length, All, some, ℤ, pos, neg, arith, length-append,
  if◌then◌else◌,
}
use ag_fs.Monad.{M, pure, ◌>>=◌}
use ag_fs.Constants.{enoent}
use ag_fs.Text.{Text}
use ag_fs.Server.Keys.{find_key}
use ag_fs.Client.Startup.{read_key_file}
use ag_fs.Client.Startup.KeyFiles.{read_key_file-key_file_header}
use ag_fs.Keygen.{
  KeyStore, key_loop, key_len, key_name_path, key_extension, key_file_header, key_list_line, endl,
  have_directory, write_keys, generate, keygen_main,
}
use ag_fs.Keygen.Words.{IsWord}
use ag_fs.Keygen.Usable.{
  KeyRecord, IsKeyRecord, key_list, lookup, find_key-key_list, key_loop-IsWord,
}

module _ {S : Type 0} (key_file keys : S → Text) where
  -- Neither file changes.
  abbrev pub Same : S → S → Type 0
  Same s t = (key_file t ≡ key_file s) × (keys t ≡ keys s)

  -- What is assumed of the calls on files: `key_file` is what the key file that was opened last
  -- holds, and `keys` what the list of keys holds.
  pub record Files (store : KeyStore S) : Type 0 where
    pub dir_same : (s : S) → Same s (store.dir_exists s).1
    pub create_same : (s : S) → Same s (store.create_directory s).1
    pub open_list_same : (s : S) → Same s (store.open_list s).1
    pub random_same : (s : S) → Same s (store.get_random s).1
    pub open_empties :
        (name : Text) (s : S)
        → (store.open_key_file name s).0 ≡ true
        → key_file (store.open_key_file name s).1 ≡ []
    pub open_keeps : (name : Text) (s : S) → keys (store.open_key_file name s).1 ≡ keys s
    pub write_adds : (t : Text) (s : S) → key_file (store.write_key_file t s).1 ≡ key_file s ++ t
    pub write_keeps : (t : Text) (s : S) → keys (store.write_key_file t s).1 ≡ keys s
    pub append_adds : (t : Text) (s : S) → keys (store.append_list t s).1 ≡ keys s ++ t
    pub append_keeps : (t : Text) (s : S) → key_file (store.append_list t s).1 ≡ key_file s

key_list-append :
    (rs : List KeyRecord) (r : KeyRecord)
    → key_list (rs ++ r ∷ []) ≡ key_list rs ++ key_list_line r.mount r.user r.key
unfolding key_list
key_list-append [] r = append-nil _
key_list-append (first ∷ rs) r =
    ap (λ l. key_list_line first.mount first.user first.key ++ l) (key_list-append rs r)
    ∙ sym (append_assoc (key_list_line first.mount first.user first.key) (key_list rs) _)

All-append_one :
    (rs : List KeyRecord) (r : KeyRecord)
    → All IsKeyRecord rs
    → IsKeyRecord r
    → All IsKeyRecord (rs ++ r ∷ [])
All-append_one [] r h k = (k, tt)
All-append_one (first ∷ rs) r h k = (h.0, All-append_one rs r h.1 k)

module _ {S : Type 0} (store : KeyStore S) (key_file keys : S → Text)
    (files : Files key_file keys store) where
  key_loop-Same :
      (count : ℕ) (key_str : Text) (s : S)
      → Same key_file keys s (key_loop store.get_random count key_str s).1
  unfolding key_loop ◌>>=◌
  key_loop-Same zero key_str s = (refl, refl)
  key_loop-Same (suc count) key_str s =
      let first = files.random_same s in
      let rest = key_loop-Same count _ (store.get_random s).1 in
      (rest.0 ∙ first.0, rest.1 ∙ first.1)

  have_directory-Same :
      (there : Bool) (s : S) → Same key_file keys s (have_directory store there s).1
  have_directory-Same true s = (refl, refl)
  have_directory-Same false s = files.create_same s

  module _ (host port user mount name : Text) (rs : List KeyRecord) (fuel : ℕ) where
    -- The code ENOENT, and an unchanged list of keys; or the code 0, and a key of 512 characters
    -- that the client reads from the key file with the host and the port, and that the server finds
    -- in the list of keys, where its record is the last one.
    abbrev pub Made : S → ℤ × S → Type 0
    Made s r =
        ((r.0 ≡ neg enoent) × (keys r.1 ≡ keys s))
        ⊎ ((r.0 ≡ pos 0)
            × (key : Text) × IsWord key
            × (length key ≡ 512)
            × (read_key_file (key_file r.1) ≡ (host, port, key))
            × (find_key fuel key (some (keys r.1))
                ≡ some (lookup key (rs ++ record { mount = mount; user = user; key = key } ∷ []))))

    -- A step that fails ends the run, and the list of keys is as it was.
    if_done :
        (done : Bool) (rest : M S ℤ) (s s₁ : S)
        → keys s₁ ≡ keys s
        → (done ≡ true → Made s (rest s₁))
        → Made s ((if not done then pure (neg enoent) else rest) s₁)
    if_done true rest s s₁ same goes_on = goes_on refl
    if_done false rest s s₁ same goes_on = inl (refl, same)

    module _ (h : IsWord host) (p : IsWord port) (u : IsWord user) (m : IsWord mount)
        (records : All IsKeyRecord rs) (enough : 3 * suc (length rs) + 2 ≤ fuel) where
      -- Where the files hold these texts, client and server find the key.
      found_key :
          (key : Text) (s s' : S)
          → IsWord key
          → length key ≡ 512
          → key_file s' ≡ key_file_header host port ++ (key ++ endl)
          → keys s' ≡ key_list rs ++ key_list_line mount user key
          → Made s (pos 0, s')
      found_key key s s' word long file list =
          let r : KeyRecord = record { mount = mount; user = user; key = key } in
          inr (
            refl,
            key,
            word,
            long,
            ap read_key_file file ∙ read_key_file-key_file_header host port key h p word,
            ap (λ l. find_key fuel key (some l)) (list ∙ sym (key_list-append rs r))
                ∙ find_key-key_list fuel key (rs ++ r ∷ []) word.some_letter
                    (All-append_one rs r records
                      (record { mount_word = m; user_word = u; key_word = word }))
                    (omega (arith, length-append rs (r ∷ []))),
          )

      write_keys-Made :
          (s₀ s : S)
          → key_file s ≡ []
          → keys s ≡ key_list rs
          → Made s₀ (write_keys store host port user mount s)
      unfolding write_keys ◌>>=◌
      write_keys-Made s₀ s empty listed =
          let header = key_file_header host port in
          let s₁ = (store.write_key_file header s).1 in
          let key = (key_loop store.get_random key_len [] s₁).0 in
          let s₂ = (key_loop store.get_random key_len [] s₁).1 in
          let s₃ = (store.write_key_file (key ++ endl) s₂).1 in
          let line = key_list_line mount user key in
          let looped = key_loop-Same key_len [] s₁ in
          let (word, long) = key_loop-IsWord store.get_random s₁ in
          found_key key s₀ (store.append_list line s₃).1 word long
            (files.append_keeps line s₃
              ∙ files.write_adds (key ++ endl) s₂
              ∙ ap (λ t. t ++ (key ++ endl))
                  (looped.0 ∙ files.write_adds header s ∙ ap (λ t. t ++ header) empty))
            (files.append_adds line s₃
              ∙ ap (λ t. t ++ line)
                  (files.write_keeps (key ++ endl) s₂
                    ∙ looped.1
                    ∙ files.write_keeps header s
                    ∙ listed))

      generate-Made :
          (s : S) → keys s ≡ key_list rs → Made s (generate store host port user mount name s)
      unfolding generate ◌>>=◌
      generate-Made s listed =
          let there = store.dir_exists s in
          let made = have_directory store there.0 there.1 in
          let list = store.open_list made.1 in
          let file = key_name_path ++ (name ++ key_extension) in
          let opened = store.open_key_file file list.1 in
          let same₁ : keys made.1 ≡ keys s =
            (have_directory-Same there.0 there.1).1 ∙ (files.dir_same s).1 in
          let same₂ : keys list.1 ≡ keys s = (files.open_list_same made.1).1 ∙ same₁ in
          let same₃ : keys opened.1 ≡ keys s = files.open_keeps file list.1 ∙ same₂ in
          if_done made.0 _ s made.1 same₁ (λ e. if_done list.0 _ s list.1 same₂ (λ e'.
            if_done opened.0 (write_keys store host port user mount) s opened.1 same₃ (λ e''.
              write_keys-Made s opened.1 (files.open_empties file list.1 e'') (same₃ ∙ listed))))

      -- A run of agfs-keygen with its five arguments, where the list of keys holds records of
      -- words, and host, port, user and mount point are words: it ends with the code ENOENT and
      -- leaves the list as it was; or with the code 0, and then the client reads from the key file
      -- the host, the port and a key of 512 characters, and the server finds in the list the first
      -- record with that key, where the last record is this key's, with the mount point and the
      -- user.
      pub keygen_main-Made :
          (s : S)
          → keys s ≡ key_list rs
          → Made s (keygen_main store (host ∷ port ∷ user ∷ mount ∷ name ∷ []) s)
      unfolding keygen_main
      keygen_main-Made s listed = generate-Made s listed
