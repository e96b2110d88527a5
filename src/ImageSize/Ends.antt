-- ===== src/ImageSize/Ends.antt =====
-- `get` on any file.
use shutilspy.Common.{
  ℕ, ◌≡◌, refl, ap, ◌⊎◌, inl, inr, Bool, true, false, ◌&&◌, ◌||◌, Option, some, List, [], ◌∷◌, leb,
  if◌then◌else◌, length, take, drop,
}
use shutilspy.ImageSize.{
  Size, get, of_numbers, is_gif, is_ihdr, png_signature, jp2_signature, is_netpbm, is_webp,
}
use shutilspy.ImageSize.Bytes.{starts}
use shutilspy.ImageSize.Jpeg.{Error, jpeg-total}
use shutilspy.ImageSize.Netpbm.{netpbm-total}

module _ {F : Type 0} where
  abbrev Ends : Option (Error ⊎ Size F) → Type 0
  Ends o = (r : Error ⊎ Size F) × (o ≡ some r)

  if_Ends : (b : Bool) (x y : Option (Error ⊎ Size F)) → Ends x → Ends y → Ends (if b then x else y)
  if_Ends true x y p q = p
  if_Ends false x y p q = q

  of_numbers-Ends :
      (o : Option (Error ⊎ (ℕ × ℕ))) → (r : Error ⊎ (ℕ × ℕ)) × (o ≡ some r) → Ends (of_numbers o)
  of_numbers-Ends o (inl e, k) = (inl e, ap of_numbers k)
  of_numbers-Ends o (inr (w, h), k) = (_, ap of_numbers k)

  here : (r : Error ⊎ Size F) → Ends (some r)
  here r = (r, refl)

  -- `get` ends on every file: it returns or raises.
  pub get-total :
      (svg : List ℕ → Error ⊎ Size F) (bytes : List ℕ)
      → (r : Error ⊎ Size F) × (get svg bytes ≡ some r)
  unfolding get
  get-total svg bytes =
      let head = take 31 bytes in
      let size = length head in
      if_Ends (leb 10 size && is_gif head) _ _ (here _) (
        if_Ends (leb 24 size && (starts png_signature head && is_ihdr (drop 12 head))) _ _ (here _)
          (if_Ends (leb 16 size && starts png_signature head) _ _ (here _) (
            if_Ends (leb 2 size && starts (255 ∷ 216 ∷ []) head) _ _
              (of_numbers-Ends _ (jpeg-total bytes))
              (if_Ends (leb 12 size && starts jp2_signature head) _ _ (here _) (
                if_Ends (leb 8 size && starts (77 ∷ 77 ∷ 0 ∷ 42 ∷ []) head) _ _ (here _) (
                  if_Ends (leb 8 size && starts (73 ∷ 73 ∷ 42 ∷ 0 ∷ []) head) _ _ (here _) (
                    if_Ends (leb 8 size && starts (73 ∷ 73 ∷ 43 ∷ 0 ∷ []) head) _ _ (here _) (
                      if_Ends
                        (leb 5 size
                          && (starts (60 ∷ 63 ∷ 120 ∷ 109 ∷ 108 ∷ []) head
                              || starts (60 ∷ 115 ∷ 118 ∷ 103 ∷ []) head))
                        _ _ (here _)
                        (if_Ends (is_netpbm head) _ _ (of_numbers-Ends _ (netpbm-total bytes))
                          (if_Ends (is_webp head) _ _ (here _) (here _)))))))))))
