-- ===== src/Tests/Keys.antt =====
-- Keys that are made, listed, written to a key file, and read again.
use ag_fs.Base.{ℕ, ◌+◌, ◌%◌, true, false, ◌≡◌, ◌≢◌, refl, [], ◌∷◌, ◌++◌, some, negsuc, arith}
use ag_fs.Text.{Text, codes, str_eq}
use ag_fs.Server.Keys.{is_space, find_key}
use ag_fs.Keygen.{KeyStore, key_file_header, endl, keygen_main}
use ag_fs.Keygen.Run.{Files, Made, keygen_main-Made}
use ag_fs.Keygen.Words.{IsWord}
use ag_fs.Keygen.Usable.{KeyRecord, key_list, lookup, find_key-key_list}
use ag_fs.Client.{Connections}
use ag_fs.Client.Startup.{read_key_file, Places}
use ag_fs.Client.Threads.{sleeping_up}
use ag_fs.Client.Startup.KeyFiles.{read_key_file-key_file_header}
use ag_fs.Tests.Remote.{conn}

not_nil : {c : ℕ} {cs : Text} → c ∷ cs ≢ []
not_nil h = ground (arith, h)

letter_a-IsWord : IsWord (codes "A")
unfolding is_space
letter_a-IsWord = record { some_letter = not_nil; no_space = (refl, tt) }

letter_k-IsWord : IsWord (codes "K")
unfolding is_space
letter_k-IsWord = record { some_letter = not_nil; no_space = (refl, tt) }

abbrev first_key : KeyRecord
first_key = record { mount = codes "A"; user = codes "A"; key = codes "A" }

abbrev second_key : KeyRecord
second_key = record { mount = codes "K"; user = codes "A"; key = codes "K" }

find_key-key_list_example :
    find_key 8 (codes "K") (some (key_list (first_key ∷ second_key ∷ [])))
    ≡ some (some (codes "K", codes "A"))
unfolding lookup str_eq
find_key-key_list_example =
    find_key-key_list 8 (codes "K") (first_key ∷ second_key ∷ []) not_nil
      (
        record {
          mount_word = letter_a-IsWord;
          user_word = letter_a-IsWord;
          key_word = letter_a-IsWord;
        },
        (
          record {
            mount_word = letter_k-IsWord;
            user_word = letter_a-IsWord;
            key_word = letter_k-IsWord;
          },
          tt,
        ),
      )
      (omega arith)

-- Random bytes: each is 7 more than the one before.
abbrev next : ℕ → ℕ × ℕ
next n = (n, n + 7)

read_key_file-key_file_header_example :
    read_key_file (key_file_header (codes "A") (codes "K") ++ (codes "A" ++ endl))
    ≡ (codes "A", codes "K", codes "A")
read_key_file-key_file_header_example =
    read_key_file-key_file_header (codes "A") (codes "K") (codes "A") letter_a-IsWord
      letter_k-IsWord letter_a-IsWord

abbrev two_servers : Connections
two_servers = (codes "a", conn) ∷ (codes "b", record conn { socket = negsuc 0 }) ∷ []

-- Both threads are within their loop.
abbrev sleeping : Places
sleeping host = sleeping_up

-- A key file, the list of keys, and the random bytes, which count up.
record Shelf : Type 0 where
  file : Text
  list : Text
  seed : ℕ

abbrev shelf_store : KeyStore Shelf
shelf_store = record {
  dir_exists = λ s. (true, s);
  create_directory = λ s. (false, s);
  open_list = λ s. (true, s);
  open_key_file = λ name s. (true, record s { file = [] });
  get_random = λ s. (s.seed, record s { seed = (s.seed + 1) % 256 });
  write_key_file = λ t s. (tt, record s { file = s.file ++ t });
  append_list = λ t s. (tt, record s { list = s.list ++ t });
}

shelf_files : Files (λ (s : Shelf). s.file) (λ (s : Shelf). s.list) shelf_store
shelf_files = record {
  dir_same = λ s. (refl, refl);
  create_same = λ s. (refl, refl);
  open_list_same = λ s. (refl, refl);
  random_same = λ s. (refl, refl);
  open_empties = λ name s e. refl;
  open_keeps = λ name s. refl;
  write_adds = λ t s. refl;
  write_keeps = λ t s. refl;
  append_adds = λ t s. refl;
  append_keeps = λ t s. refl;
}

abbrev shelf : Shelf
shelf = record { file = codes "old"; list = key_list (first_key ∷ []); seed = 3 }

keygen_main-Made_example :
    Made shelf_store
      (λ (s : Shelf). s.file)
      (λ (s : Shelf). s.list)
      shelf_files
      (codes "A")
      (codes "K")
      (codes "A")
      (codes "K")
      (codes "f")
      (first_key ∷ [])
      8
      shelf
      (keygen_main shelf_store
        (codes "A" ∷ codes "K" ∷ codes "A" ∷ codes "K" ∷ codes "f" ∷ [])
        shelf)
keygen_main-Made_example =
    keygen_main-Made shelf_store (λ (s : Shelf). s.file) (λ (s : Shelf). s.list) shelf_files
      (codes "A") (codes "K") (codes "A") (codes "K") (codes "f") (first_key ∷ []) 8 letter_a-IsWord
      letter_k-IsWord letter_a-IsWord letter_k-IsWord
      (
        record {
          mount_word = letter_a-IsWord;
          user_word = letter_a-IsWord;
          key_word = letter_a-IsWord;
        },
        tt,
      )
      (omega arith) shelf refl
