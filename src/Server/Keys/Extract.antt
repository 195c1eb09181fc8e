-- ===== src/Server/Keys/Extract.antt =====
-- What the extraction of a word from a stream does, against the words of a text.
use ag_fs.Base.{
  ℕ, ◌≡◌, ◌⊎◌, refl, sym, ap, ◌∙◌, true, false, ◌||◌, List, [], ◌∷◌, arith, if◌then◌else◌,
  Bool-cases, inl, inr,
}
use ag_fs.Text.{Text}
use ag_fs.Server.Keys.{Input, is_space, skip_spaces, first_word, after_word, is_empty, extract}

-- A character before a text adds to its first word if the text starts with one.
abbrev pub add_to_word : ℕ → Text → List Text → List Text
add_to_word c [] ws = (c ∷ []) ∷ ws
add_to_word c (d ∷ cs) [] = (c ∷ []) ∷ []
add_to_word c (d ∷ cs) (w ∷ ws) = if is_space d then (c ∷ []) ∷ w ∷ ws else (c ∷ w) ∷ ws

-- The words of a text, split at spaces.
unfoldable pub words : Text → List Text
words [] = []
words (c ∷ cs) = let rest = words cs in if is_space c then rest else add_to_word c cs rest

words-skip_spaces : (t : Text) → words (skip_spaces t) ≡ words t
unfolding words skip_spaces
words-skip_spaces [] = refl
words-skip_spaces (c ∷ cs) = ground (arith, words-skip_spaces cs)

-- After the spaces comes the end or a character that is none.
starts_word :
    (t : Text)
    → (skip_spaces t ≡ [])
      ⊎ ((c : ℕ) × (cs : Text) × (skip_spaces t ≡ c ∷ cs) × (is_space c ≡ false))
unfolding skip_spaces
starts_word [] = inl refl
starts_word (c ∷ cs) = elim (Bool-cases (is_space c)) [
  | inl p ↦ rw p (starts_word cs)
  | inr p ↦ rw p (inr (c, cs, refl, p))
]

pub add_to_word_space :
    (c d : ℕ) (cs : Text) (ws : List Text)
    → is_space d ≡ true
    → add_to_word c (d ∷ cs) ws ≡ (c ∷ []) ∷ ws
add_to_word_space c d cs [] h = refl
add_to_word_space c d cs (w ∷ ws) h = rw h refl

pub words-first_word :
    (c : ℕ) (cs : Text)
    → is_space c ≡ false
    → words (c ∷ cs) ≡ first_word (c ∷ cs) ∷ words (after_word (c ∷ cs))
unfolding words first_word after_word
words-first_word c [] h = rw h refl
words-first_word c (d ∷ cs) h = elim (Bool-cases (is_space d)) [
  | inl p ↦ rw (h, p) (add_to_word_space c d cs (words cs) p ∙ rw p refl)
  | inr p ↦ rw h (ap (add_to_word c (d ∷ cs)) (words-first_word d cs p) ∙ rw p refl)
]

pub no_cons : {x : Text} {xs : List Text} → x ∷ xs ≡ [] → ⊥
no_cons h = ground (arith, h)

cons_inj : {x y : Text} {xs ys : List Text} → x ∷ xs ≡ y ∷ ys → (x ≡ y) × (xs ≡ ys)
cons_inj h = (cc, cc)

-- A stream that has reached its end has nothing left, and only such a stream fails.
pub record IsSound (input : Input) : Type 0 where
  pub failed_at_end : input.failed ≡ true → input.eof ≡ true
  pub end_empty : input.eof ≡ true → input.left ≡ []

after_word-IsSound :
    (rest : Text) → IsSound (record { left = rest; eof = is_empty rest; failed = false })
after_word-IsSound [] = record { failed_at_end = λ _. refl; end_empty = λ _. refl }
after_word-IsSound (c ∷ cs) = record {
  failed_at_end = λ h. absurd (ground (arith, h));
  end_empty = λ h. absurd (ground (arith, h));
}

at_end : (input : Input) → IsSound input → (input.eof || input.failed) ≡ true → input.eof ≡ true
at_end input sound h = elim (Bool-cases input.eof) [
  | inl e ↦ e
  | inr e ↦ sound.failed_at_end (rw e at h)
]

pub nothing_left : {input : Input} → IsSound input → input.eof ≡ true → words input.left ≡ []
unfolding words
nothing_left sound ended = ap words (sound.end_empty ended)

-- Where no word is left, the string keeps its value and the stream is at its end.
pub extract_none :
    (str : Text) (input : Input)
    → IsSound input
    → words input.left ≡ []
    → (end : Input) × (extract str input ≡ (str, end)) × IsSound end × (end.eof ≡ true)
unfolding extract
extract_none str input sound none_left = elim (Bool-cases (input.eof || input.failed)) [
  | inl stopped ↦ (
    record input { failed = true },
    rw stopped refl,
    record { failed_at_end = λ _. at_end input sound stopped; end_empty = sound.end_empty },
    at_end input sound stopped,
  )
  | inr good ↦ elim (starts_word input.left) [
    | inl spaces ↦ (
      record { left = []; eof = true; failed = true },
      rw (good, spaces) refl,
      record { failed_at_end = λ _. refl; end_empty = λ _. refl },
      refl,
    )
    | inr (c, cs, word, letter) ↦ absurd (
        no_cons (
          sym (words-first_word c cs letter)
          ∙ ap words (sym word)
          ∙ words-skip_spaces input.left
          ∙ none_left))
  ]
]

-- Otherwise the next word is extracted.
pub extract_some :
    (str w : Text) (ws : List Text) (input : Input)
    → IsSound input
    → words input.left ≡ w ∷ ws
    → (more : Input) × (extract str input ≡ (w, more)) × IsSound more × (words more.left ≡ ws)
unfolding extract words
extract_some str w ws input sound more_left = elim (Bool-cases (input.eof || input.failed)) [
  | inl stopped ↦
      absurd (no_cons (sym more_left ∙ ap words (sound.end_empty (at_end input sound stopped))))
  | inr good ↦ elim (starts_word input.left) [
    | inl spaces ↦
        absurd (no_cons (sym more_left ∙ sym (words-skip_spaces input.left) ∙ ap words spaces))
    | inr (c, cs, word, letter) ↦
        let split : words input.left ≡ first_word (c ∷ cs) ∷ words (after_word (c ∷ cs)) =
          sym (words-skip_spaces input.left) ∙ ap words word ∙ words-first_word c cs letter in
        let rest = after_word (c ∷ cs) in
        let same = cons_inj (sym split ∙ more_left) in
        (
          record { left = rest; eof = is_empty rest; failed = false },
          rw (good, word)
              (ap (λ x. (x, record { left = rest; eof = is_empty rest; failed = false })) (same.0)),
          after_word-IsSound rest,
          same.1,
        )
  ]
]
