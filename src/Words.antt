-- ===== src/Words.antt =====
-- Machine words in memory: the byte order of the host, and the conversions of <endian.h> that
-- src/agfsio.cpp calls.
pub mod Laws
use ag_fs.Base.{
  ℕ, zero, suc, ◌+◌, ◌-◌, ◌*◌, ◌/◌, ◌%◌, ◌^◌, List, [], ◌∷◌, ◌++◌, ltb, if◌then◌else◌, ℤ, pos,
  negsuc,
}
use mathlib.Core.List.{reverse}

-- A host stores a word with its lowest or with its highest byte first.
pub data Endian : Type 0 where
  little big : Endian

-- The lowest `w` bytes of a word, the lowest first.
unfoldable pub le_bytes : ℕ → ℕ → List ℕ
le_bytes zero v = []
le_bytes (suc w) v = (v % 256) ∷ le_bytes w (v / 256)

unfoldable pub of_le : List ℕ → ℕ
of_le [] = 0
of_le (b ∷ bs) = b + 256 * of_le bs

-- The order on the wire: the highest byte first.
unfoldable pub be_bytes : ℕ → ℕ → List ℕ
be_bytes w v = reverse (le_bytes w v)

-- The bytes of a `w`-byte object that holds `v`, in memory order, and the value of such an object.
unfoldable pub store : Endian → ℕ → ℕ → List ℕ
store little w v = le_bytes w v
store big w v = reverse (le_bytes w v)

unfoldable pub load : Endian → List ℕ → ℕ
load little bs = of_le bs
load big bs = of_le (reverse bs)

-- A word with its bytes in the reverse order.
unfoldable pub bswap : ℕ → ℕ → ℕ
bswap w v = of_le (reverse (le_bytes w v))

-- htobe16, htobe32, htobe64 at widths 2, 4 and 8.
unfoldable pub htobe : Endian → ℕ → ℕ → ℕ
htobe little w v = bswap w v
htobe big w v = v

-- be16toh, be32toh, be64toh.
unfoldable pub betoh : Endian → ℕ → ℕ → ℕ
betoh little w v = bswap w v
betoh big w v = v

-- The two's complement pattern of an `agerr_t` (int64_t), and the number of a pattern.
unfoldable pub to_word : ℤ → ℕ
to_word (pos n) = n % 2 ^ 64
to_word (negsuc n) = 2 ^ 64 - 1 - n % 2 ^ 64

unfoldable pub of_word : ℕ → ℤ
of_word w = if ltb w (2 ^ 63) then pos w else negsuc (2 ^ 64 - 1 - w)

-- The conversion of a wider number to an int: its lowest 32 bits, with the highest as the sign.
abbrev pub signed_int : ℕ → ℤ
signed_int w = if ltb w (2 ^ 31) then pos w else negsuc (2 ^ 32 - 1 - w)

abbrev pub to_int : ℤ → ℤ
to_int (pos n) = signed_int (n % 2 ^ 32)
to_int (negsuc n) = signed_int (2 ^ 32 - 1 - n % 2 ^ 32)
