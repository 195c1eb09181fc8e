-- ===== src/Keygen/Usable.antt =====
-- What agfs-keygen writes is what the server and the client read.
use ag_fs.Base.{
  ℕ, zero, suc, ◌+◌, ◌*◌, ◌/◌, ◌%◌, ◌≤◌, ◌<◌, ◌≡◌, ◌≢◌, refl, ap, ◌∙◌, false, List, [], ◌∷◌, ◌++◌,
  length, length-append, All, Option, none, some, arith, if◌then◌else◌,
}
use ag_fs.Monad.{M, ◌>>=◌}
use ag_fs.Text.{Text, str_eq}
use ag_fs.Server.Keys.{is_space, find_key}
use ag_fs.Server.Keys.Extract.{words}
use ag_fs.Server.Keys.Scan.{granted, find_key_lem}
use ag_fs.Keygen.{hex_value, hex_digits, key_loop, key_len, key_list_line}
use ag_fs.Keygen.Words.{IsWord, words_word_before}

-- A mount point, a user and a key.
pub record KeyRecord : Type 0 where
  pub mount : Text
  pub user : Text
  pub key : Text

pub record IsKeyRecord (r : KeyRecord) : Type 0 where
  pub mount_word : IsWord r.mount
  pub user_word : IsWord r.user
  pub key_word : IsWord r.key

-- The list of keys after these records were written to it.
unfoldable pub key_list : List KeyRecord → Text
key_list [] = []
key_list (r ∷ rs) = key_list_line r.mount r.user r.key ++ key_list rs

-- The mount point and the user of the first record with a key.
unfoldable pub lookup : Text → List KeyRecord → Option (Text × Text)
lookup key [] = none
lookup key (r ∷ rs) =
    let rest = lookup key rs in if str_eq r.key key then some (r.mount, r.user) else rest

abbrev fields : List KeyRecord → List Text
fields [] = []
fields (r ∷ rs) = r.mount ∷ r.user ∷ r.key ∷ fields rs

length-fields : (rs : List KeyRecord) → length (fields rs) ≡ 3 * length rs
length-fields [] = refl
length-fields (r ∷ rs) = omega (arith, length-fields rs)

granted-fields : (key : Text) (rs : List KeyRecord) → granted key (fields rs) ≡ lookup key rs
unfolding granted lookup
granted-fields key [] = refl
granted-fields key (r ∷ rs) = rw (granted-fields key rs) refl

words_line :
    (r : KeyRecord) (t : Text)
    → IsKeyRecord r
    → words (key_list_line r.mount r.user r.key ++ t) ≡ r.mount ∷ r.user ∷ r.key ∷ words t
unfolding is_space
words_line r t h =
    words_word_before r.mount _ t 32 h.mount_word refl
    ∙ ap (λ l. r.mount ∷ l)
        (words_word_before r.user _ t 32 h.user_word refl
          ∙ ap (λ l. r.user ∷ l) (words_word_before r.key [] t 10 h.key_word refl))

words-key_list : (rs : List KeyRecord) → All IsKeyRecord rs → words (key_list rs) ≡ fields rs
unfolding key_list words
words-key_list [] h = refl
words-key_list (r ∷ rs) h =
    words_line r (key_list rs) h.0 ∙ ap (λ l. r.mount ∷ r.user ∷ r.key ∷ l) (words-key_list rs h.1)

-- The server finds in the list what was written to it: for a key that is not empty, and records of
-- non-empty texts without spaces, the search ends and gives the first record with that key.
pub find_key-key_list :
    (fuel : ℕ) (key : Text) (rs : List KeyRecord)
    → key ≢ []
    → All IsKeyRecord rs
    → 3 * length rs + 2 ≤ fuel
    → find_key fuel key (some (key_list rs)) ≡ some (lookup key rs)
find_key-key_list fuel key rs some_key records enough =
    let split = words-key_list rs records in
    find_key_lem fuel key (key_list rs) some_key (omega (arith, length-fields rs, ap length split))
    ∙ ap some (ap (granted key) split ∙ granted-fields key rs)

hex_value_letter : (v : ℕ) → v < 16 → is_space (hex_value v) ≡ false
unfolding hex_value is_space
hex_value_letter v lt = ground arith

All-append_two :
    (P : ℕ → Type 0) (xs : Text) (a b : ℕ) → All P xs → P a → P b → All P (xs ++ a ∷ b ∷ [])
All-append_two P [] a b h p q = (p, (q, tt))
All-append_two P (x ∷ xs) a b h p q = (h.0, All-append_two P xs a b h.1 p q)

module _ {S : Type 0} (get : M S ℕ) where
  key_loop_letters :
      (count : ℕ) (key_str : Text) (s : S)
      → All (λ c. is_space c ≡ false) key_str
      → All (λ c. is_space c ≡ false) (key_loop get count key_str s).0
  unfolding key_loop ◌>>=◌
  key_loop_letters zero key_str s h = h
  key_loop_letters (suc count) key_str s h =
      let c = (get s).0 in
      key_loop_letters count (key_str ++ hex_digits c) (get s).1 (
        All-append_two (λ d. is_space d ≡ false) key_str _ _ h
          (hex_value_letter (c / 16 % 16) (omega arith)) (hex_value_letter (c % 16) (omega arith)))

  -- The loop adds two characters for each byte.
  length-key_loop :
      (count : ℕ) (key_str : Text) (s : S)
      → length (key_loop get count key_str s).0 ≡ length key_str + 2 * count
  unfolding key_loop ◌>>=◌
  length-key_loop zero key_str s = omega arith
  length-key_loop (suc count) key_str s =
      let c = (get s).0 in
      length-key_loop count (key_str ++ hex_digits c) (get s).1
      ∙ omega (arith, length-append key_str (hex_digits c))

  -- Whatever the random bytes are, the loop of agfs-keygen makes a key of 512 characters, without
  -- spaces, so that it stays one word in the list and in the key file.
  pub key_loop-IsWord :
      (s : S) → IsWord (key_loop get key_len [] s).0 × (length (key_loop get key_len [] s).0 ≡ 512)
  key_loop-IsWord s = (
    record {
      some_letter = λ e. absurd (omega (arith, ap length e, length-key_loop key_len [] s));
      no_space = key_loop_letters key_len [] s tt;
    },
    length-key_loop key_len [] s,
  )
