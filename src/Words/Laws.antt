-- ===== src/Words/Laws.antt =====
-- Laws of memory words: a stored word loads back, and a word in network order has the same bytes
-- whatever the byte order of the host.
use mathlib.Core.List.{reverse_aux, reverse-reverse}
use native.Mathlib.Nat.{pow-suc}
use ag_fs.Base.{
  ℕ, zero, suc, ◌+◌, ◌-◌, ◌*◌, ◌/◌, ◌%◌, ◌^◌, ◌<◌, ◌≡◌, refl, ap, List, [], ◌∷◌, length, All, arith,
  ℤ, pos, negsuc, ◌≤ℤ◌,
}
use ag_fs.Words.{
  Endian, little, big, le_bytes, of_le, be_bytes, store, load, bswap, htobe, betoh, to_word,
  of_word,
}

abbrev IsByte : ℕ → Type 0
IsByte b = b < 256

All-reverse_aux :
    (bs acc : List ℕ) → All IsByte bs → All IsByte acc → All IsByte (reverse_aux bs acc)
All-reverse_aux [] acc h k = k
All-reverse_aux (b ∷ bs) acc h k = All-reverse_aux bs (b ∷ acc) h.1 (h.0, k)

length-reverse_aux {ℓ} :
    {A : Type ℓ} (xs acc : List A) → length (reverse_aux xs acc) ≡ length xs + length acc
length-reverse_aux [] acc = omega arith
length-reverse_aux (x ∷ xs) acc = omega (arith, length-reverse_aux xs (x ∷ acc))

length-le_bytes : (w v : ℕ) → length (le_bytes w v) ≡ w
unfolding le_bytes
length-le_bytes zero v = refl
length-le_bytes (suc w) v = ap suc (length-le_bytes w (v / 256))

pub length-be_bytes : (w v : ℕ) → length (be_bytes w v) ≡ w
unfolding be_bytes
length-be_bytes w v = omega (arith, length-reverse_aux (le_bytes w v) [], length-le_bytes w v)

le_bytes-IsByte : (w v : ℕ) → All IsByte (le_bytes w v)
unfolding le_bytes
le_bytes-IsByte zero v = tt
le_bytes-IsByte (suc w) v = (omega arith, le_bytes-IsByte w (v / 256))

-- A word is the value of its bytes.
pub of_le-le_bytes : (w v : ℕ) → v < 256 ^ w → of_le (le_bytes w v) ≡ v
unfolding of_le le_bytes
of_le-le_bytes zero v h = omega arith
of_le-le_bytes (suc w) v h =
    let h' : v < 256 ^ w * 256 = rw pow-suc at h in
    omega (arith, of_le-le_bytes w (v / 256) (omega arith))

-- Bytes are those of their value.
le_bytes-of_le : (bs : List ℕ) → All IsByte bs → le_bytes (length bs) (of_le bs) ≡ bs
unfolding of_le le_bytes
le_bytes-of_le [] h = refl
le_bytes-of_le (b ∷ bs) h =
    rw ((let e : (b + 256 * of_le bs) / 256 ≡ of_le bs = omega arith in e))
      (cc (le_bytes-of_le bs h.1, (let e : (b + 256 * of_le bs) % 256 ≡ b = omega arith in e)))

le_bytes-bswap : (w v : ℕ) → le_bytes w (bswap w v) ≡ be_bytes w v
unfolding bswap be_bytes
le_bytes-bswap w v =
    rw (length-be_bytes w v) at
      (le_bytes-of_le (be_bytes w v) (All-reverse_aux (le_bytes w v) [] (le_bytes-IsByte w v) tt))

-- What is stored after htobe has the same bytes on every host: the highest first.
pub store-htobe : (e : Endian) (w v : ℕ) → store e w (htobe e w v) ≡ be_bytes w v
unfolding store htobe be_bytes
store-htobe little w v = le_bytes-bswap w v
store-htobe big w v = refl

pub betoh-load : (e : Endian) (w v : ℕ) → v < 256 ^ w → betoh e w (load e (be_bytes w v)) ≡ v
unfolding load betoh bswap be_bytes
betoh-load little w v h = rw (le_bytes-bswap w v, reverse-reverse) (of_le-le_bytes w v h)
betoh-load big w v h = rw reverse-reverse (of_le-le_bytes w v h)

pub length-store : (e : Endian) (w v : ℕ) → length (store e w v) ≡ w
unfolding store be_bytes
length-store little w v = length-le_bytes w v
length-store big w v = length-be_bytes w v

-- The values that an `agerr_t` can hold.
abbrev pub IsInt64 : ℤ → Type 0
IsInt64 z = (negsuc (2 ^ 63 - 1) ≤ℤ z) × (z ≤ℤ pos (2 ^ 63 - 1))

pub of_word-to_word : (z : ℤ) → IsInt64 z → of_word (to_word z) ≡ z
unfolding of_word to_word
of_word-to_word (pos n) h = ground arith
of_word-to_word (negsuc n) h = ground arith

pub to_word-lt : (z : ℤ) → to_word z < 2 ^ 64
unfolding to_word
to_word-lt (pos n) = omega arith
to_word-lt (negsuc n) = omega arith
