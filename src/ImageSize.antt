-- ===== src/ImageSize.antt =====
-- shutils/imagesize.py: `get`, on the bytes of a file. The texts of an SVG file, which `re` and
-- `float` read, are a parameter; so is the type of its sizes. An error carries no text.
pub mod Bytes
pub mod Jpeg
pub mod Tiff
pub mod Netpbm
pub mod Headers
pub mod Segments
pub mod Ends
mod Tests
use shutilspy.Common.{
  ℕ, ◌+◌, ◌*◌, ◌/◌, ◌%◌, ◌⊎◌, inl, inr, Bool, false, ◌&&◌, ◌||◌, Option, none, some, List, [], ◌∷◌,
  leb, ◌==◌, if◌then◌else◌, length, take, drop,
}
use shutilspy.Common.Int.{
  ℤ, pos, negsuc, pos_part, neg_part, sub_ℕ, ◌≤ℤ◌, ◌<ℤ◌, succ_ℤ, pred_ℤ, lt_succ, lt_succ_self,
  pred_lt, pred_lt_self,
}
use shutilspy.ImageSize.Bytes.{
  slice, same_bytes, starts, unpack_be, unpack_le, pair_be, pair_le, int16, value_le,
}
use shutilspy.ImageSize.Jpeg.{
  Error, value_error, struct_error, index_error, unbound_local_error, jpeg,
}
use shutilspy.ImageSize.Tiff.{tiff_big, tiff_little, big_tiff}
use shutilspy.ImageSize.Netpbm.{netpbm}

pub data Size (F : Type 0) : Type 0 where
  ints : ℤ → ℤ → Size F
  floats : F → F → Size F

abbrev pub png_signature : List ℕ
png_signature = 137 ∷ 80 ∷ 78 ∷ 71 ∷ 13 ∷ 10 ∷ 26 ∷ 10 ∷ []

abbrev pub jp2_signature : List ℕ
jp2_signature = 0 ∷ 0 ∷ 0 ∷ 12 ∷ 106 ∷ 80 ∷ 32 ∷ 32 ∷ 13 ∷ 10 ∷ 135 ∷ 10 ∷ []

-- `GIF87a`, `GIF89a`, and `IHDR`.
abbrev pub is_gif : List ℕ → Bool
is_gif l =
    starts (71 ∷ 73 ∷ 70 ∷ 56 ∷ 55 ∷ 97 ∷ []) l || starts (71 ∷ 73 ∷ 70 ∷ 56 ∷ 57 ∷ 97 ∷ []) l

abbrev pub is_ihdr : List ℕ → Bool
is_ihdr l = starts (73 ∷ 72 ∷ 68 ∷ 82 ∷ []) l

-- `P`, then a digit from 1 to 6, or nothing.
abbrev pub is_netpbm : List ℕ → Bool
is_netpbm [] = false
is_netpbm (b ∷ []) = b == 80
is_netpbm (b ∷ c ∷ l) = (b == 80) && (leb 49 c && leb c 54)

-- `RIFF`, four bytes, `WEBP`; then the kinds of it.
abbrev pub is_webp : List ℕ → Bool
is_webp l = starts (82 ∷ 73 ∷ 70 ∷ 70 ∷ []) l && starts (87 ∷ 69 ∷ 66 ∷ 80 ∷ []) (drop 8 l)

module _ {F : Type 0} where
  abbrev pub of_pair : Error → Option (ℕ × ℕ) → Error ⊎ Size F
  of_pair e none = inl e
  of_pair e (some (w, h)) = inr (ints (pos w) (pos h))

  abbrev pub of_numbers : Option (Error ⊎ (ℕ × ℕ)) → Option (Error ⊎ Size F)
  of_numbers none = none
  of_numbers (some (inl e)) = some (inl e)
  of_numbers (some (inr (w, h))) = some (inr (ints (pos w) (pos h)))

  abbrev pub of_found : Error ⊎ (ℤ × ℤ) → Error ⊎ Size F
  of_found (inl e) = inl e
  of_found (inr (w, h)) = inr (ints w h)

  unfoldable pub gif : List ℕ → Error ⊎ Size F
  unfolding pair_le
  gif head = elim (pair_le 2 (slice 6 4 head)) [
    | none ↦ inl value_error
    | some (w, h) ↦ inr (ints (int16 w) (int16 h))
  ]

  -- The four bytes of a lossless header: 14 bits each for the width and the height, less 1.
  unfoldable pub vp8l : List ℕ → Error ⊎ Size F
  vp8l (b0 ∷ b1 ∷ b2 ∷ b3 ∷ l) =
      inr (ints (pos ((b1 % 64) * 256 + b0 + 1)) (pos ((b3 % 16) * 1024 + b2 * 4 + b1 / 64 + 1)))
  vp8l l = inl index_error

  unfoldable pub vp8x : List ℕ → Error ⊎ Size F
  unfolding unpack_le value_le
  vp8x head = elim (unpack_le 3 (slice 24 3 head)) [
    | none ↦ inl struct_error
    | some w ↦ elim (unpack_le 3 (slice 27 3 head)) [
      | none ↦ inl struct_error
      | some h ↦ inr (ints (pos w) (pos h))
    ]
  ]

  -- `VP8 `, `VP8X`, `VP8L`.
  unfoldable pub webp : List ℕ → Error ⊎ Size F
  unfolding pair_le vp8l vp8x
  webp head =
      let kind = drop 12 head in
      if starts (86 ∷ 80 ∷ 56 ∷ 32 ∷ []) kind
      then of_pair struct_error (pair_le 2 (slice 26 4 head))
      else (if starts (86 ∷ 80 ∷ 56 ∷ 88 ∷ []) kind
          then vp8x head
          else (if starts (86 ∷ 80 ∷ 56 ∷ 76 ∷ []) kind
              then vp8l (slice 21 4 head)
              else inl value_error))

  -- `get`, in the order of its tests; `svg` reads the first 1024 bytes.
  unfoldable pub get : (List ℕ → Error ⊎ Size F) → List ℕ → Option (Error ⊎ Size F)
  unfolding gif pair_be jpeg tiff_big tiff_little big_tiff netpbm webp
  get svg bytes =
      let head = take 31 bytes in
      let size = length head in
      if leb 10 size && is_gif head
      then some (gif head)
      else (if leb 24 size && (starts png_signature head && is_ihdr (drop 12 head))
          then some (of_pair value_error (pair_be 4 (slice 16 8 head)))
          else (if leb 16 size && starts png_signature head
              then some (of_pair value_error (pair_be 4 (slice 8 8 head)))
              else (if leb 2 size && starts (255 ∷ 216 ∷ []) head
                  then of_numbers (jpeg bytes)
                  else (if leb 12 size && starts jp2_signature head
                      then some (
                          of_pair value_error
                            (elim (pair_be 4 (slice 48 8 bytes)) as (λ _. Option (ℕ × ℕ)) [
                              | none ↦ none
                              | some hw ↦ some (hw.1, hw.0)
                            ]))
                      else (if leb 8 size && starts (77 ∷ 77 ∷ 0 ∷ 42 ∷ []) head
                          then some (of_found (tiff_big bytes))
                          else (if leb 8 size && starts (73 ∷ 73 ∷ 42 ∷ 0 ∷ []) head
                              then some (of_found (tiff_little bytes))
                              else (if leb 8 size && starts (73 ∷ 73 ∷ 43 ∷ 0 ∷ []) head
                                  then some (of_found (big_tiff bytes))
                                  else (if leb 5 size
                                        && (starts (60 ∷ 63 ∷ 120 ∷ 109 ∷ 108 ∷ []) head
                                            || starts (60 ∷ 115 ∷ 118 ∷ 103 ∷ []) head)
                                      then some (svg (take 1024 bytes))
                                      else (if is_netpbm head
                                          then of_numbers (netpbm bytes)
                                          else (if is_webp head
                                              then some (webp head)
                                              else some (inr (ints (negsuc 0) (negsuc 0)))))))))))))
