-- ===== src/Server/Keys.antt =====
-- src/agfs-server.cpp: the loop of ClientConnection's constructor that looks for the client's key
-- in the list of keys, over an std::istream. Of a stream it is modelled which characters are left,
-- and the bits eofbit and failbit; a file that cannot be opened leaves failbit set.
pub mod Extract
pub mod Scan
use ag_fs.Base.{
  ℕ, zero, suc, ◌+◌, Bool, true, false, ◌||◌, ◌&&◌, ◌==◌, ltb, List, [], ◌∷◌, Option, none, some,
  if◌then◌else◌,
}
use ag_fs.Text.{Text, str_eq}

pub record Input : Type 0 where
  pub left : Text
  pub eof : Bool
  pub failed : Bool

-- std::fstream::open, with the contents of the file, or `none` if it cannot be opened.
abbrev pub open_input : Option Text → Input
open_input none = record { left = []; eof = false; failed = true }
open_input (some text) = record { left = text; eof = false; failed = false }

-- std::isspace: the blank, and the codes 9 to 13.
unfoldable pub is_space : ℕ → Bool
is_space c = c == 32 || ltb 8 c && ltb c 14

unfoldable pub skip_spaces : Text → Text
skip_spaces [] = []
skip_spaces (c ∷ cs) = let rest = skip_spaces cs in if is_space c then rest else c ∷ cs

-- The characters up to the next space, and those from it on.
unfoldable pub first_word : Text → Text
first_word [] = []
first_word (c ∷ cs) = let rest = first_word cs in if is_space c then [] else c ∷ rest

unfoldable pub after_word : Text → Text
after_word [] = []
after_word (c ∷ cs) = let rest = after_word cs in if is_space c then c ∷ cs else rest

abbrev pub is_empty : Text → Bool
is_empty [] = true
is_empty (c ∷ cs) = false

-- What is extracted from a stream that is good, after the spaces: nothing is left, or a word.
abbrev pub extract_word : Text → Text → Text × Input
extract_word str [] = (str, record { left = []; eof = true; failed = true })
extract_word str (c ∷ cs) =
    let rest = after_word (c ∷ cs) in
    (first_word (c ∷ cs), record { left = rest; eof = is_empty rest; failed = false })

-- `in >> str`: the string, which keeps its value where nothing is extracted, and the stream.
unfoldable pub extract : Text → Input → Text × Input
extract str input =
    if input.eof || input.failed
    then (str, record input { failed = true })
    else extract_word str (skip_spaces input.left)

-- `authkeys >> mountPath >> user >> serverKey`
unfoldable pub extract_record : Text × Text × Text → Input → (Text × Text × Text) × Input
extract_record (mount_path, user, server_key) authkeys =
    let (mount_path', authkeys₁) = extract mount_path authkeys in
    let (user', authkeys₂) = extract user authkeys₁ in
    let (server_key', authkeys₃) = extract server_key authkeys₂ in
    ((mount_path', user', server_key'), authkeys₃)

-- `fuel` rounds of the loop; `none` where it would go on. Otherwise the mount point and the user of
-- the record that has the client's key, if any.
unfoldable pub scan_keys : ℕ → Text → Text × Text × Text → Input → Option (Option (Text × Text))
scan_keys zero client_key old authkeys = none
scan_keys (suc fuel) client_key old authkeys =
    let (new, authkeys') = extract_record old authkeys in
    let rest = scan_keys fuel client_key new authkeys' in
    if authkeys.eof
    then some none
    else if str_eq new.2 client_key
    then some (some (new.0, new.1))
    else rest

-- The loop from its start: the three strings are empty.
unfoldable pub find_key : ℕ → Text → Option Text → Option (Option (Text × Text))
unfolding scan_keys extract_record extract
find_key fuel client_key contents = scan_keys fuel client_key ([], [], []) (open_input contents)
