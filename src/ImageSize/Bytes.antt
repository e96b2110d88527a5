-- ===== src/ImageSize/Bytes.antt =====
-- Byte strings as lists of numbers, and what `struct.unpack` reads from them.
use shutilspy.Common.{
  ℕ, ◌+◌, ◌*◌, Bool, true, false, ◌&&◌, Option, none, some, List, [], ◌∷◌, ltb, ◌==◌, if◌then◌else◌,
  length, take, drop,
}
use shutilspy.Common.Int.{ℤ, pos, sub_ℕ}

-- `read(n)` at a position, and a slice.
abbrev pub slice : ℕ → ℕ → List ℕ → List ℕ
slice p n l = take n (drop p l)

abbrev pub same_bytes : List ℕ → List ℕ → Bool
same_bytes [] [] = true
same_bytes [] (y ∷ m) = false
same_bytes (x ∷ l) [] = false
same_bytes (x ∷ l) (y ∷ m) = (x == y) && same_bytes l m

abbrev pub starts : List ℕ → List ℕ → Bool
starts p l = same_bytes p (take (length p) l)

-- The value of big-endian and of little-endian bytes.
unfoldable pub value_be : ℕ → List ℕ → ℕ
value_be acc [] = acc
value_be acc (b ∷ l) = value_be (acc * 256 + b) l

unfoldable pub value_le : List ℕ → ℕ
value_le [] = 0
value_le (b ∷ l) = b + 256 * value_le l

-- Fields of the given sizes, if the bytes are exactly as many.
unfoldable pub unpack_be : ℕ → List ℕ → Option ℕ
unfolding value_be
unpack_be n l = if length l == n then some (value_be 0 l) else none

unfoldable pub unpack_le : ℕ → List ℕ → Option ℕ
unfolding value_le
unpack_le n l = if length l == n then some (value_le l) else none

-- Two fields of the same size.
unfoldable pub pair_be : ℕ → List ℕ → Option (ℕ × ℕ)
unfolding value_be
pair_be n l =
    if length l == n + n then some (value_be 0 (take n l), value_be 0 (drop n l)) else none

unfoldable pub pair_le : ℕ → List ℕ → Option (ℕ × ℕ)
unfolding value_le
pair_le n l = if length l == n + n then some (value_le (take n l), value_le (drop n l)) else none

-- A signed field of 16 bits.
abbrev pub int16 : ℕ → ℤ
int16 n = if ltb n 32768 then pos n else sub_ℕ n 65536
