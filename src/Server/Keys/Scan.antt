-- ===== src/Server/Keys/Scan.antt =====
-- The loop over the list of keys against a plain description: the file is a sequence of words, and
-- every three of them are a mount point, a user and a key.
use ag_fs.Base.{
  ℕ, zero, suc, ◌+◌, ◌≤◌, ◌≡◌, ◌≢◌, refl, sym, ◌∙◌, true, false, List, [], ◌∷◌, length, Option,
  none, some, arith, if◌then◌else◌, Bool-cases, inl, inr,
}
use ag_fs.Text.{Text, str_eq, str_eq_iff}
use ag_fs.Server.Keys.Extract.{words, IsSound, no_cons, nothing_left, extract_none, extract_some}
use ag_fs.Server.Keys.{Input, open_input, extract, extract_record, scan_keys, find_key}

-- The first record with the key gives the mount point and the user.
unfoldable pub granted : Text → List Text → Option (Text × Text)
granted key (mount ∷ user ∷ key' ∷ ws) =
    let rest = granted key ws in if str_eq key' key then some (mount, user) else rest
granted key _ = none

-- Where a whole record is left, it is extracted.
pub extract_whole :
    (old : Text × Text × Text) (a b c : Text) (ws : List Text) (input : Input)
    → IsSound input
    → words input.left ≡ a ∷ b ∷ c ∷ ws
    → (more : Input) × (extract_record old input ≡ ((a, b, c), more))
      × IsSound more
      × (words more.left ≡ ws)
unfolding extract_record
extract_whole (m, u, k) a b c ws input sound left =
    let (more₁, e₁, sound₁, left₁) = extract_some m a _ input sound left in
    let (more₂, e₂, sound₂, left₂) = extract_some u b _ more₁ sound₁ left₁ in
    let (more₃, e₃, sound₃, left₃) = extract_some k c _ more₂ sound₂ left₂ in
    (more₃, rw (e₁, e₂, e₃) refl, sound₃, left₃)

-- Where less is left, the key stays that of the record before, and the stream is at its end.
data IsShort : List Text → Type 0 where
  none_left : IsShort []
  one_left : (a : Text) → IsShort (a ∷ [])
  two_left : (a b : Text) → IsShort (a ∷ b ∷ [])

abbrev Ending : Text × Text × Text → Input → Type 0
Ending (m, u, k) input =
    (m' : Text) × (u' : Text) × (end : Input) × (extract_record (m, u, k) input
      ≡ ((m', u', k), end))
    × (end.eof ≡ true)

extract_short :
    (m u k : Text) (input : Input) {ws : List Text}
    → IsSound input
    → words input.left ≡ ws
    → IsShort ws
    → Ending (m, u, k) input
unfolding extract_record
extract_short m u k input sound left none_left =
    let (end₁, e₁, sound₁, eof₁) = extract_none m input sound left in
    let (end₂, e₂, sound₂, eof₂) = extract_none u end₁ sound₁ (nothing_left sound₁ eof₁) in
    let (end₃, e₃, sound₃, eof₃) = extract_none k end₂ sound₂ (nothing_left sound₂ eof₂) in
    (m, u, end₃, rw (e₁, e₂, e₃) refl, eof₃)
extract_short m u k input sound left (one_left a) =
    let (more₁, e₁, sound₁, left₁) = extract_some m a _ input sound left in
    let (end₂, e₂, sound₂, eof₂) = extract_none u more₁ sound₁ left₁ in
    let (end₃, e₃, sound₃, eof₃) = extract_none k end₂ sound₂ (nothing_left sound₂ eof₂) in
    (a, u, end₃, rw (e₁, e₂, e₃) refl, eof₃)
extract_short m u k input sound left (two_left a b) =
    let (more₁, e₁, sound₁, left₁) = extract_some m a _ input sound left in
    let (more₂, e₂, sound₂, left₂) = extract_some u b _ more₁ sound₁ left₁ in
    let (end₃, e₃, sound₃, eof₃) = extract_none k more₂ sound₂ left₂ in
    (a, b, end₃, rw (e₁, e₂, e₃) refl, eof₃)

scan_keys_ended :
    (fuel : ℕ) (key : Text) (old : Text × Text × Text) (input : Input)
    → input.eof ≡ true
    → scan_keys (suc fuel) key old input ≡ some none
unfolding scan_keys
scan_keys_ended fuel key old input h = rw h refl

scan_keys_round :
    (fuel : ℕ) (key m u k : Text) (old : Text × Text × Text) (input : Input) {more : Input}
    → input.eof ≡ false
    → extract_record old input ≡ ((m, u, k), more)
    → scan_keys (suc fuel) key old input
      ≡ (if str_eq k key then some (some (m, u)) else scan_keys fuel key (m, u, k) more)
unfolding scan_keys
scan_keys_round fuel key m u k old input h e = rw (e, h) refl

-- A word that is left means that the stream is not at its end.
going :
    {w : Text} {ws : List Text} (input : Input)
    → IsSound input
    → words input.left ≡ w ∷ ws
    → input.eof ≡ false
going input sound left = elim (Bool-cases input.eof) [
  | inl ended ↦ absurd (no_cons (sym left ∙ nothing_left sound ended))
  | inr more ↦ more
]

scan_keys_short :
    (fuel : ℕ) (key m u k : Text) (input : Input) {ws : List Text}
    → IsSound input
    → words input.left ≡ ws
    → IsShort ws
    → str_eq k key ≡ false
    → scan_keys (suc (suc fuel)) key (m, u, k) input ≡ some none
scan_keys_short fuel key m u k input sound left short other = elim (Bool-cases input.eof) [
  | inl ended ↦ scan_keys_ended (suc fuel) key (m, u, k) input ended
  | inr more ↦
      let (m', u', end, e, ended) = extract_short m u k input sound left short in
      scan_keys_round (suc fuel) key m' u' k (m, u, k) input more e
      ∙ rw (other, scan_keys_ended fuel key (m', u', k) end ended) refl
]

-- From a round whose last key is not the client's, the loop ends and finds what `granted` finds.
scan_keys_lem :
    (fuel : ℕ) (key m u k : Text) (input : Input) (ws : List Text)
    → IsSound input
    → words input.left ≡ ws
    → str_eq k key ≡ false
    → length ws + 2 ≤ fuel
    → scan_keys fuel key (m, u, k) input ≡ some (granted key ws)
unfolding granted
scan_keys_lem zero key m u k input ws sound left other enough = absurd (omega arith)
scan_keys_lem (suc zero) key m u k input ws sound left other enough = absurd (omega arith)
scan_keys_lem (suc (suc fuel)) key m u k input [] sound left other enough =
    scan_keys_short fuel key m u k input sound left none_left other
scan_keys_lem (suc (suc fuel)) key m u k input (a ∷ []) sound left other enough =
    scan_keys_short fuel key m u k input sound left (one_left a) other
scan_keys_lem (suc (suc fuel)) key m u k input (a ∷ b ∷ []) sound left other enough =
    scan_keys_short fuel key m u k input sound left (two_left a b) other
scan_keys_lem (suc (suc fuel)) key m u k input (a ∷ b ∷ c ∷ ws) sound left other enough =
    let (more, e, sound', left') = extract_whole (m, u, k) a b c ws input sound left in
    scan_keys_round (suc fuel) key a b c (m, u, k) input (going input sound left) e
    ∙ elim (Bool-cases (str_eq c key)) [
      | inl same ↦ rw same refl
      | inr differs ↦
          rw differs (scan_keys_lem (suc fuel) key a b c more ws sound' left' differs (omega arith))
    ]

pub open_IsSound : (text : Text) → IsSound (open_input (some text))
open_IsSound text = record {
  failed_at_end = λ h. absurd (ground (arith, h));
  end_empty = λ h. absurd (ground (arith, h));
}

-- For a key that is not empty, the loop over a list that can be opened ends, within two rounds more
-- than the list has words, and finds the first record with that key: each three words of the file
-- are a mount point, a user and a key.
pub find_key_lem :
    (fuel : ℕ) (key contents : Text)
    → key ≢ []
    → length (words contents) + 2 ≤ fuel
    → find_key fuel key (some contents) ≡ some (granted key (words contents))
unfolding find_key
find_key_lem fuel key contents some_key enough =
    scan_keys_lem fuel key [] [] [] (open_input (some contents)) _ (open_IsSound contents) refl
      (ground (arith, str_eq_iff [] key, some_key)) enough

-- A stream that failed without reaching its end changes nothing any more.
extract_record_stuck :
    (old : Text × Text × Text) (left : Text)
    → let stuck : Input = record { left = left; eof = false; failed = true } in
      extract_record old stuck ≡ (old, stuck)
unfolding extract_record extract
extract_record_stuck (m, u, k) left = refl

scan_keys_stuck :
    (fuel : ℕ) (key m u k left : Text)
    → str_eq k key ≡ false
    → scan_keys fuel key (m, u, k) (record { left = left; eof = false; failed = true }) ≡ none
unfolding scan_keys
scan_keys_stuck zero key m u k left other = refl
scan_keys_stuck (suc fuel) key m u k left other =
    rw (extract_record_stuck (m, u, k) left, other) (scan_keys_stuck fuel key m u k left other)

-- If the list cannot be opened, the loop does not end, in any number of rounds, for a key that is
-- not empty: eofbit is never set, and the comparison never holds.
pub find_key_unopened : (fuel : ℕ) (key : Text) → key ≢ [] → find_key fuel key none ≡ none
unfolding find_key
find_key_unopened fuel key some_key =
    scan_keys_stuck fuel key [] [] [] [] (ground (arith, str_eq_iff [] key, some_key))
