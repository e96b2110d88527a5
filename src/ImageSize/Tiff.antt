-- ===== src/ImageSize/Tiff.antt =====
-- The directory of a TIFF or BigTIFF file. The width and the height are -1 until they are found.
use shutilspy.Common.{
  ℕ, zero, suc, ◌+◌, ◌/◌, ◌⊎◌, inl, inr, Bool, true, false, ◌&&◌, Option, none, some, List, ◌==◌,
  if◌then◌else◌, length, take, drop,
}
use shutilspy.Common.Int.{ℤ, pos, negsuc}
use shutilspy.ImageSize.Bytes.{slice, unpack_be, unpack_le, value_be, value_le}
use shutilspy.ImageSize.Jpeg.{Error, value_error, struct_error, unbound_local_error}

-- An entry's tag, data type and data.
pub record Entry : Type 0 where
  pub tag : ℕ
  pub datatype : ℕ
  pub data_of : ℕ

unfoldable pub entry_be : List ℕ → Option Entry
unfolding value_be
entry_be l =
    if length l == 12
    then some (record {
      tag = value_be 0 (take 2 l);
      datatype = value_be 0 (slice 2 2 l);
      data_of = value_be 0 (drop 8 l);
    })
    else none

-- Little-endian, with counts and data of the given size.
unfoldable pub entry_le : ℕ → List ℕ → Option Entry
unfolding value_le
entry_le n l =
    if length l == 4 + n + n
    then some (record {
      tag = value_le (take 2 l);
      datatype = value_le (slice 2 2 l);
      data_of = value_le (drop (4 + n) l);
    })
    else none

-- The big-endian reader looks at the data type.
abbrev pub typed : Entry → Error ⊎ ℕ
typed e =
    if e.datatype == 3
    then inr (e.data_of / 65536)
    else (if e.datatype == 4 then inr e.data_of else inl value_error)

abbrev pub untyped : Entry → Error ⊎ ℕ
untyped e = inr e.data_of

abbrev pub is_found : ℤ → Bool
is_found (pos n) = true
is_found (negsuc n) = false

module _ (entry_size : ℕ) (entry : List ℕ → Option Entry) (read_data : Entry → Error ⊎ ℕ) where
  -- What one entry does to the width and the height.
  unfoldable pub visit : Entry → ℤ → ℤ → Error ⊎ (ℤ × ℤ)
  visit e width height =
      if e.tag == 256
      then elim (read_data e) [ inl x ↦ inl x | inr d ↦ inr (pos d, height) ]
      else (if e.tag == 257
          then elim (read_data e) [ inl x ↦ inl x | inr d ↦ inr (width, pos d) ]
          else inr (width, height))

  -- The loop over the entries, which ends early once both are found.
  unfoldable pub entries : ℕ → List ℕ → ℤ → ℤ → Error ⊎ (ℤ × ℤ)
  unfolding visit
  entries zero l width height = inr (width, height)
  entries (suc n) l width height = elim (entry (take entry_size l)) [
    | none ↦ inl struct_error
    | some e ↦ elim (visit e width height) [
      | inl x ↦ inl x
      | inr (w, h) ↦ elim (is_found w && is_found h) [
        | true ↦ inr (w, h)
        | false ↦ entries n (drop entry_size l) w h
      ]
    ]
  ]

  unfoldable pub directory : ℕ → List ℕ → Error ⊎ (ℤ × ℤ)
  unfolding entries
  directory n l = elim (entries n l (negsuc 0) (negsuc 0)) [
    | inl x ↦ inl x
    | inr (w, h) ↦ if is_found w && is_found h then inr (w, h) else inl value_error
  ]

unfoldable pub tiff_big : List ℕ → Error ⊎ (ℤ × ℤ)
unfolding directory unpack_be entry_be value_be
tiff_big bytes =
    let offset = value_be 0 (slice 4 4 bytes) in
    elim (unpack_be 2 (slice offset 2 bytes)) [
      | none ↦ inl struct_error
      | some n ↦ directory 12 entry_be typed n (drop (offset + 2) bytes)
    ]

unfoldable pub tiff_little : List ℕ → Error ⊎ (ℤ × ℤ)
unfolding directory unpack_le entry_le value_le
tiff_little bytes =
    let offset = value_le (slice 4 4 bytes) in
    elim (unpack_le 2 (slice offset 2 bytes)) [
      | none ↦ inl struct_error
      | some n ↦ directory 12 (entry_le 4) untyped n (drop (offset + 2) bytes)
    ]

-- `offset` is not bound where the message of the first error names it.
unfoldable pub big_tiff : List ℕ → Error ⊎ (ℤ × ℤ)
unfolding directory unpack_le entry_le value_le
big_tiff bytes =
    if value_le (slice 4 4 bytes) == 8
    then elim (unpack_le 8 (slice 8 8 bytes)) [
      | none ↦ inl struct_error
      | some offset ↦ elim (unpack_le 8 (slice offset 8 bytes)) [
        | none ↦ inl struct_error
        | some n ↦ directory 20 (entry_le 8) untyped n (drop (offset + 8) bytes)
      ]
    ]
    else inl unbound_local_error
