-- ===== src/ImageSize/Headers.antt =====
-- What `get` reads from the headers that a writer of each format makes.
use shutilspy.Common.{
  ℕ, ◌+◌, ◌*◌, ◌/◌, ◌%◌, ◌≤◌, ◌<◌, ◌≡◌, refl, sym, ap, ◌∙◌, subst, ◌⊎◌, inr, true, false, ◌&&◌,
  some, List, [], ◌∷◌, ◌++◌, arith, leb, length, take, drop,
}
use shutilspy.Common.Int.{pos}
use shutilspy.ImageSize.{
  Size, ints, get, png_signature, gif, value_le, pair_le, int16, starts, value_error, pair_be,
  slice, is_gif, is_ihdr, of_pair,
}
use shutilspy.ImageSize.Bytes.{pair_be, starts, slice, int16, value_le, pair_le, value_be}
use shutilspy.ImageSize.Jpeg.{Error}

-- A number below 65536 in two bytes, the high one first.
abbrev pub two_be : ℕ → List ℕ
two_be n = n / 256 ∷ n % 256 ∷ []

abbrev pub two_le : ℕ → List ℕ
two_le n = n % 256 ∷ n / 256 ∷ []

abbrev pub four_be : ℕ → List ℕ
four_be n = two_be (n / 65536) ++ two_be (n % 65536)

le_two : (n : ℕ) → value_le (two_le n) ≡ n
unfolding value_le
le_two n = omega arith

at_least : (n m : ℕ) → n ≤ m → leb n m ≡ true
at_least n m h = ground (arith, h)

module _ {F : Type 0} (svg : List ℕ → Error ⊎ Size F) where
  get-is_gif :
      (bytes : List ℕ)
      → leb 10 (length (take 31 bytes)) ≡ true
      → is_gif (take 31 bytes) ≡ true
      → get svg bytes ≡ some (gif (take 31 bytes))
  unfolding get
  get-is_gif bytes e f = rw (e, f, get) refl

  get-is_png :
      (bytes : List ℕ)
      → leb 10 (length (take 31 bytes)) ≡ true
      → is_gif (take 31 bytes) ≡ false
      → leb 24 (length (take 31 bytes)) ≡ true
      → starts png_signature (take 31 bytes) && is_ihdr (drop 12 (take 31 bytes)) ≡ true
      → get svg bytes ≡ some (of_pair value_error (pair_be 4 (slice 16 8 (take 31 bytes))))
  unfolding get
  get-is_png bytes t g e f = rw (t, g, e, f, get) refl

  gif_sizes :
      (a b c d : ℕ) (l : List ℕ)
      → gif {F = F} (71 ∷ 73 ∷ 70 ∷ 56 ∷ 57 ∷ 97 ∷ a ∷ b ∷ c ∷ d ∷ l)
        ≡ inr (ints (int16 (a + 256 * (b + 256 * 0))) (int16 (c + 256 * (d + 256 * 0))))
  unfolding gif pair_le value_le
  gif_sizes a b c d l = refl

  int16_small : (n : ℕ) → n < 32768 → int16 (n % 256 + 256 * (n / 256 + 256 * 0)) ≡ pos n
  int16_small n h =
      let e : n % 256 + 256 * (n / 256 + 256 * 0) ≡ n = omega arith in
      subst (λ m. int16 m ≡ pos n) (sym e) (ground (arith, h))

  -- Of a GIF file with a screen of less than 32768 on each side `get` returns the sides.
  pub get-gif :
      (width height : ℕ) (rest : List ℕ)
      → width < 32768
      → height < 32768
      → get svg (71 ∷ 73 ∷ 70 ∷ 56 ∷ 57 ∷ 97 ∷ (two_le width ++ (two_le height ++ rest)))
        ≡ some (inr (ints (pos width) (pos height)))
  get-gif width height rest w h =
      let bytes = 71 ∷ 73 ∷ 70 ∷ 56 ∷ 57 ∷ 97 ∷ (two_le width ++ (two_le height ++ rest)) in
      get-is_gif bytes (at_least 10 (length (take 31 bytes)) (omega arith)) refl
      ∙ ap some (gif_sizes (width % 256) (width / 256) (height % 256) (height / 256) (take 21 rest))
      ∙ ap some (rw (int16_small width w, int16_small height h) refl)

  be_four : (n : ℕ) → value_be 0 (four_be n) ≡ n
  unfolding value_be
  be_four n = omega arith

  png_sizes :
      (width height : ℕ)
      → width < 4294967296
      → height < 4294967296
      → of_pair {F = F} value_error (pair_be 4 (four_be width ++ four_be height))
        ≡ inr (ints (pos width) (pos height))
  unfolding pair_be value_be
  png_sizes width height w h =
      ap (λ n. inr (ints (pos n) (pos (value_be 0 (four_be height))))) (be_four width)
      ∙ ap (λ n. inr (ints (pos width) (pos n))) (be_four height)

  -- Of a PNG file with sides of four bytes `get` returns the sides.
  pub get-png :
      (width height : ℕ) (rest : List ℕ)
      → width < 4294967296
      → height < 4294967296
      → get svg (
          png_signature
          ++ (0 ∷ 0 ∷ 0 ∷ 13 ∷ 73 ∷ 72 ∷ 68 ∷ 82 ∷ (four_be width ++ (four_be height ++ rest))))
        ≡ some (inr (ints (pos width) (pos height)))
  get-png width height rest w h =
      let bytes =
        png_signature
        ++ (0 ∷ 0 ∷ 0 ∷ 13 ∷ 73 ∷ 72 ∷ 68 ∷ 82 ∷ (four_be width ++ (four_be height ++ rest))) in
      get-is_png bytes (at_least 10 (length (take 31 bytes)) (omega arith)) refl
        (at_least 24 (length (take 31 bytes)) (omega arith)) refl
      ∙ ap some (png_sizes width height w h)
