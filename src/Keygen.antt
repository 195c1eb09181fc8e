-- ===== src/Keygen.antt =====
-- src/agfs-keygen.cpp: a new random key is appended to the server's list of keys, and written to a
-- key file for a client.
pub mod Words
pub mod Usable
pub mod Run
use ag_fs.Base.{
  ℕ, zero, suc, ◌+◌, ◌/◌, ◌%◌, Bool, true, false, not, ltb, List, [], ◌∷◌, ◌++◌, ℤ, pos, neg,
  if◌then◌else◌,
}
use ag_fs.Monad.{M, pure, ◌>>=◌, ◌>>◌}
use ag_fs.Constants.{enoent}
use ag_fs.Text.{Text, codes}

-- KEY_LEN: the bytes of a key.
abbrev pub key_len : ℕ
key_len = 256

-- KEY_NAME_PATH and KEY_EXTENSION
abbrev pub key_name_path : Text
key_name_path = codes "/var/lib/agfs/"

abbrev pub key_extension : Text
key_extension = codes ".agkey"

-- std::endl puts a newline.
abbrev pub endl : Text
endl = 10 ∷ []

-- hexValues[v], for v < 16: the digits and the letters from A.
unfoldable pub hex_value : ℕ → ℕ
hex_value v = if ltb v 10 then 48 + v else 55 + v

-- The two digits of a byte.
abbrev pub hex_digits : ℕ → Text
hex_digits c = hex_value (c / 16 % 16) ∷ hex_value (c % 16) ∷ []

-- The loop that makes `count` more bytes of the key, from `/dev/urandom`.
unfoldable pub key_loop : {S : Type 0} → M S ℕ → ℕ → Text → M S Text
key_loop get zero key_str = pure key_str
key_loop get (suc count) key_str = do c ← get; key_loop get count (key_str ++ hex_digits c)

-- keyFile << argv[1] << endl << argv[2] << endl
abbrev pub key_file_header : Text → Text → Text
key_file_header host port = host ++ (endl ++ (port ++ endl))

-- keyListFile << argv[4] << " " << argv[3] << " " << keyStr << endl
abbrev pub key_list_line : Text → Text → Text → Text
key_list_line mount user key_str =
    mount ++ (codes " " ++ (user ++ (codes " " ++ (key_str ++ endl))))

-- The calls of the system on the files.
pub record KeyStore (S : Type 0) : Type 0 where
  -- exists(DIR_PATH) and create_directory(DIR_PATH)
  pub dir_exists : M S Bool
  pub create_directory : M S Bool
  -- the opening of the key list and of a key file, and is_open
  pub open_list : M S Bool
  pub open_key_file : Text → M S Bool
  -- what `get` leaves in a char that is read from /dev/urandom
  pub get_random : M S ℕ
  -- what is written to the key file, and to the end of the list
  pub write_key_file : Text → M S (Unit {0})
  pub append_list : Text → M S (Unit {0})

module _ {S : Type 0} (store : KeyStore S) where
  -- The directory is created if it is not there.
  abbrev pub have_directory : Bool → M S Bool
  have_directory true = pure true
  have_directory false = store.create_directory

  -- The part of main that writes, with both files open.
  unfoldable pub write_keys : Text → Text → Text → Text → M S ℤ
  write_keys host port user mount = do
    store.write_key_file (key_file_header host port)
    key_str ← key_loop store.get_random key_len []
    store.write_key_file (key_str ++ endl)
    store.append_list (key_list_line mount user key_str)
    pure (pos 0)

  -- main, behind the test of the number of arguments
  unfoldable pub generate : Text → Text → Text → Text → Text → M S ℤ
  unfolding write_keys
  generate host port user mount file_name = do
    there ← store.dir_exists
    made ← have_directory there
    if not made then pure (neg enoent) else do
      listed ← store.open_list
      if not listed then pure (neg enoent) else do
        opened ← store.open_key_file (key_name_path ++ (file_name ++ key_extension))
        if not opened then pure (neg enoent) else write_keys host port user mount

  -- main, with the arguments behind the program's name. The usage message is not modelled.
  unfoldable pub keygen_main : List Text → M S ℤ
  unfolding generate
  keygen_main (host ∷ port ∷ user ∷ mount ∷ file_name ∷ []) =
      generate host port user mount file_name
  keygen_main _ = pure (pos 0)
