-- ===== src/ImageSize/Tests.antt =====
-- Runs of `get`, and the theorems at concrete inputs. An SVG file is refused here.
use shutilspy.Common.{ℕ, ◌≡◌, refl, ◌⊎◌, inl, inr, some, List, [], ◌∷◌}
use shutilspy.ImageSize.{Size, get, vp8l, big_tiff}
use shutilspy.ImageSize.Jpeg.{Error, value_error, unbound_local_error, jpeg}
use shutilspy.ImageSize.Tiff.{directory, entry_be, big_tiff}
use shutilspy.ImageSize.Ends.{get-total}
use shutilspy.ImageSize.Netpbm.{netpbm}

code : Unit {0}
unfolding get jpeg netpbm big_tiff directory entry_be vp8l
code = tt

abbrev no_svg : List ℕ → Error ⊎ Size ℕ
no_svg l = inl value_error

-- SOI, a segment of four bytes, then a SOF0 block of 16 by 9.
abbrev photo : List ℕ
photo = 255 ∷ 216 ∷ 255 ∷ 224 ∷ 0 ∷ 4 ∷ 1 ∷ 2 ∷ 255 ∷ 192 ∷ 0 ∷ 17 ∷ 8 ∷ 0 ∷ 9 ∷ 0 ∷ 16 ∷ []

jpeg-photo : jpeg photo ≡ some (inr (16, 9))
unfolding code
jpeg-photo = refl

get-total_example : (r : Error ⊎ Size ℕ) × (get no_svg photo ≡ some r)
get-total_example = get-total no_svg photo

-- A file that ends within the first number: its last digit is read again as the second.
netpbm_cut : netpbm (80 ∷ 49 ∷ 32 ∷ 49 ∷ 50 ∷ []) ≡ some (inr (12, 2))
unfolding code
netpbm_cut = refl

-- A BigTIFF file whose offset size is not 8.
big_tiff_unbound : big_tiff (73 ∷ 73 ∷ 43 ∷ 0 ∷ 4 ∷ 0 ∷ 0 ∷ 0 ∷ []) ≡ inl unbound_local_error
unfolding code
big_tiff_unbound = refl

abbrev note : List (ℕ × List ℕ)
note = (224, 1 ∷ 2 ∷ []) ∷ (254, 65 ∷ []) ∷ []
