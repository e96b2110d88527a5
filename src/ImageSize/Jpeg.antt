-- ===== src/ImageSize/Jpeg.antt =====
-- The loop over the segments of a JPEG file.
use shutilspy.Common.{
  ℕ, zero, suc, ◌+◌, ◌-◌, ◌≤◌, ◌<◌, ◌≡◌, ◌⊎◌, inl, inr, Bool, true, false, not, ◌&&◌, ◌||◌, Option,
  none, some, List, [], ◌∷◌, arith, leb, ◌==◌, if◌then◌else◌, Bool-cases, Option-cases, length,
  drop, length-drop, length-take_le,
}
use shutilspy.ImageSize.Bytes.{slice, unpack_be, pair_be}

pub data Error : Type 0 where
  value_error : Error
  struct_error : Error
  index_error : Error
  unbound_local_error : Error

-- The first byte that is not 0xff, and the position behind it; at the end, `ord` raises.
unfoldable pub marker : List ℕ → ℕ → Option (ℕ × ℕ)
marker [] p = none
marker (b ∷ l) p = let rest = marker l (p + 1) in if b == 255 then rest else some (b, p + 1)

abbrev pub is_sof : ℕ → Bool
is_sof t = leb 192 t && leb t 207 && not ((t == 196) || (t == 200) || (t == 204))

-- Behind the length of the SOFn block: the precision, the height, the width.
unfoldable pub sof : List ℕ → ℕ → Error ⊎ (ℕ × ℕ)
unfolding pair_be
sof bytes p = elim (pair_be 2 (slice (p + 1) 4 bytes)) [
  | none ↦ inl value_error
  | some hw ↦ inr (hw.1, hw.0)
]

-- One round after the other, on fuel: `seek(size, 1)` with `size` the length field less 2, a marker
-- and the next length field.
unfoldable pub segments : ℕ → List ℕ → ℕ → ℕ → Option (Error ⊎ (ℕ × ℕ))
unfolding marker unpack_be sof
segments zero bytes p field = none
segments (suc fuel) bytes p field = elim (marker (drop (p + field - 2) bytes) (p + field - 2)) [
  | none ↦ some (inl value_error)
  | some (t, q) ↦ elim (unpack_be 2 (slice q 2 bytes)) [
    | none ↦ some (inl value_error)
    | some next ↦ elim (is_sof t) [
      | true ↦ some (sof bytes (q + 2))
      | false ↦ segments fuel bytes (q + 2) next
    ]
  ]
]

-- The first round skips the two bytes of the SOI marker.
unfoldable pub jpeg : List ℕ → Option (Error ⊎ (ℕ × ℕ))
unfolding segments
jpeg bytes = segments (suc (length bytes)) bytes 0 4

-- A marker is found inside the file, behind where the search starts.
marker-inside : (l : List ℕ) (p t q : ℕ) → marker l p ≡ some (t, q) → (p < q) × (q ≤ p + length l)
unfolding marker
marker-inside [] p t q e = absurd (ground (arith, e))
marker-inside (b ∷ l) p t q e = ground (arith, marker-inside l (p + 1) t q)

unpack_inside :
    (bytes : List ℕ) (q n : ℕ) → unpack_be 2 (slice q 2 bytes) ≡ some n → q + 2 ≤ length bytes
unfolding unpack_be
unpack_inside bytes q n e = ground (arith, length-take_le 2 (drop q bytes), length-drop q bytes, e)

-- Each round ends further on in the file, so as many as the file has bytes are enough.
segments-total :
    (fuel : ℕ) (bytes : List ℕ) (p field : ℕ)
    → 2 ≤ p + field
    → p ≤ length bytes
    → length bytes < fuel + p
    → ¬ (segments fuel bytes p field ≡ none)
unfolding segments
segments-total zero bytes p field a b h = absurd (omega (arith, b, h))
segments-total (suc fuel) bytes p field a b h =
    let from = p + field - 2 in
    elim (Option-cases (marker (drop from bytes) from)) [
      | inl e ↦ λ f. absurd (ground (arith, e, f))
      | inr ((t, q), e) ↦ elim (Option-cases (unpack_be 2 (slice q 2 bytes))) [
        | inl u ↦ λ f. absurd (ground (arith, e, u, f))
        | inr (next, u) ↦ elim (Bool-cases (is_sof t)) [
          | inl s ↦ λ f. absurd (ground (arith, e, u, s, f))
          | inr s ↦
              let inside = marker-inside (drop from bytes) from t q e in
              let rest =
                segments-total fuel bytes (q + 2) next (omega arith) (unpack_inside bytes q next u)
                  (omega (arith, a, h, inside)) in
              rw (e, u, s, segments) rest
        ]
      ]
    ]

-- `get` ends on every JPEG file: the loop finds a SOFn block or raises.
pub jpeg-total : (bytes : List ℕ) → (r : Error ⊎ (ℕ × ℕ)) × (jpeg bytes ≡ some r)
unfolding jpeg
jpeg-total bytes = elim (Option-cases (jpeg bytes)) [
  | inl e ↦
      absurd
        (segments-total (suc (length bytes)) bytes 0 4 (omega arith) (omega arith) (omega arith) e)
  | inr (r, e) ↦ (r, e)
]
