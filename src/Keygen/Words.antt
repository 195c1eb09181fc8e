-- ===== src/Keygen/Words.antt =====
-- The words of a text that is put together with spaces.
use ag_fs.Base.{
  ℕ, ◌≡◌, ◌≢◌, refl, sym, ap, ◌∙◌, true, false, [], ◌∷◌, ◌++◌, All, append_assoc, Bool-cases, inl,
  inr,
}
use ag_fs.Text.{Text}
use ag_fs.Server.Keys.{is_space}
use ag_fs.Server.Keys.Extract.{words, words-first_word, add_to_word, add_to_word_space}

-- A word: not empty, and without spaces.
pub record IsWord (w : Text) : Type 0 where
  pub some_letter : w ≢ []
  pub no_space : All (λ c. is_space c ≡ false) w

add_to_word-append :
    (c s : ℕ) (cs t : Text)
    → is_space s ≡ true
    → words (cs ++ s ∷ t) ≡ words cs ++ words t
    → add_to_word c (cs ++ s ∷ t) (words cs ++ words t) ≡ add_to_word c cs (words cs) ++ words t
unfolding words
add_to_word-append c s [] t space split = add_to_word_space c s t (words t) space
add_to_word-append c s (d ∷ cs) t space split = elim (Bool-cases (is_space d)) [
  | inl p ↦
      add_to_word_space c d (cs ++ s ∷ t) (words (d ∷ cs) ++ words t) p
      ∙ ap (λ l. l ++ words t) (sym (add_to_word_space c d cs (words (d ∷ cs)) p))
  | inr p ↦ rw (words-first_word d cs p, p) refl
]

-- A space ends the word before it.
pub words-append :
    (cs t : Text) (s : ℕ) → is_space s ≡ true → words (cs ++ s ∷ t) ≡ words cs ++ words t
unfolding words
words-append [] t s space = rw space refl
words-append (c ∷ cs) t s space = elim (Bool-cases (is_space c)) [
  | inl p ↦ rw p (words-append cs t s space)
  | inr p ↦
      rw (p, words-append cs t s space)
        (add_to_word-append c s cs t space (words-append cs t s space))
]

words_letters :
    (c : ℕ) (cs : Text) → All (λ d. is_space d ≡ false) (c ∷ cs) → words (c ∷ cs) ≡ (c ∷ cs) ∷ []
unfolding words
words_letters c [] h = rw (h.0) refl
words_letters c (d ∷ cs) h = rw (words_letters d cs h.1, h.0, h.1.0) refl

words_word : (w : Text) → IsWord w → words w ≡ w ∷ []
words_word [] h = absurd (h.some_letter refl)
words_word (c ∷ cs) h = words_letters c cs h.no_space

-- A word before a space is the first one.
pub words_word_first :
    (w t : Text) (s : ℕ) → IsWord w → is_space s ≡ true → words (w ++ s ∷ t) ≡ w ∷ words t
words_word_first w t s word space =
    words-append w t s space ∙ ap (λ l. l ++ words t) (words_word w word)

-- The same where more text follows.
pub words_word_before :
    (w u t : Text) (s : ℕ)
    → IsWord w
    → is_space s ≡ true
    → words ((w ++ s ∷ u) ++ t) ≡ w ∷ words (u ++ t)
words_word_before w u t s word space =
    ap words (append_assoc w (s ∷ u) t) ∙ words_word_first w (u ++ t) s word space
