-- ===== src/Client/Startup/KeyFiles.antt =====
-- The key files that agfs-keygen writes, read by the client.
use ag_fs.Base.{◌≡◌, refl, ap, ◌∙◌, [], ◌∷◌, ◌++◌, some}
use ag_fs.Text.{Text}
use ag_fs.Server.Keys.{Input, is_space, open_input}
use ag_fs.Server.Keys.Extract.{words}
use ag_fs.Server.Keys.Scan.{extract_whole, open_IsSound}
use ag_fs.Client.Startup.{read_key_file}
use ag_fs.Keygen.{key_file_header, endl}
use ag_fs.Keygen.Words.{IsWord, words_word_before, words_word_first}

-- For a host, a port and a key that are words, the client reads from the key file what agfs-keygen
-- wrote to it.
pub read_key_file-key_file_header :
    (host port key : Text)
    → IsWord host
    → IsWord port
    → IsWord key
    → read_key_file (key_file_header host port ++ (key ++ endl)) ≡ (host, port, key)
unfolding read_key_file is_space words
read_key_file-key_file_header host port key h p k =
    let text = key_file_header host port ++ (key ++ endl) in
    let split : words text ≡ host ∷ port ∷ key ∷ [] =
      words_word_before host _ (key ++ endl) 10 h refl
      ∙ ap (λ l. host ∷ l)
          (words_word_before port [] (key ++ endl) 10 p refl
            ∙ ap (λ l. port ∷ l) (words_word_first key [] 10 k refl)) in
    let (more, e, sound, left) =
      extract_whole ([], [], []) host port key [] (open_input (some text)) (open_IsSound text)
        split in
    ap (λ (r : (Text × Text × Text) × Input). r.0) e
