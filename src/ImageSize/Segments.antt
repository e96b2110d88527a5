-- ===== src/ImageSize/Segments.antt =====
-- JPEG files that are written segment by segment.
use shutilspy.Common.{ℕ, ◌+◌, ◌/◌, ◌%◌, ◌<◌, ◌≡◌, false, List, [], ◌∷◌, ◌++◌, length, All}
use shutilspy.ImageSize.Jpeg.{is_sof}

-- A length in two bytes, with itself counted.
abbrev pub size_of : List ℕ → ℕ
size_of body = length body + 2

-- A segment: the marker, the length and what it counts.
abbrev pub segment : ℕ → List ℕ → List ℕ
segment t body = 255 ∷ t ∷ (size_of body / 256) ∷ (size_of body % 256) ∷ body

-- Segments, and then the rest of the file.
abbrev pub written : List (ℕ × List ℕ) → List ℕ → List ℕ
written [] end = end
written (x ∷ l) end = segment x.0 x.1 ++ written l end

-- Markers of other segments, with lengths that fit in two bytes.
abbrev pub Plain : List (ℕ × List ℕ) → Type 0
Plain l = All (λ x. (x.0 < 255) × (is_sof x.0 ≡ false) × (size_of x.1 < 65536)) l

-- What a SOFn block counts: the precision, its sides and the components, three bytes for each.
abbrev pub sof_body : ℕ → ℕ → ℕ → List ℕ → List ℕ
sof_body precision width height parts =
    precision ∷ (height / 256) ∷ (height % 256) ∷ (width / 256) ∷ (width % 256) ∷ parts

-- A SOFn block, and then the rest of the file.
abbrev pub frame : ℕ → ℕ → ℕ → ℕ → List ℕ → List ℕ → List ℕ
frame t precision width height parts rest =
    segment t (sof_body precision width height parts) ++ rest
