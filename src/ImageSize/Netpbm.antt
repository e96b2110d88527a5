-- ===== src/ImageSize/Netpbm.antt =====
-- The two numbers at the start of a Netpbm file.
use shutilspy.Common.{
  ℕ, zero, suc, ◌+◌, ◌-◌, ◌*◌, ◌≤◌, ◌<◌, ◌≡◌, refl, ◌⊎◌, inl, inr, Bool, true, false, ◌&&◌, ◌||◌,
  Option, none, some, List, [], ◌∷◌, arith, leb, ◌==◌, if◌then◌else◌, Bool-cases, Option-cases,
  length, drop, length-drop,
}
use shutilspy.ImageSize.Jpeg.{Error, value_error}

abbrev pub is_space : ℕ → Bool
is_space b = (b == 32) || (leb 9 b && leb b 13)

abbrev pub is_digit : ℕ → Bool
is_digit b = leb 48 b && leb b 57

-- The number that the digits at the front go on with, and how many they are.
unfoldable pub number : ℕ → List ℕ → ℕ × ℕ
number acc [] = (acc, 0)
number acc (b ∷ l) =
    let rest = number (acc * 10 + (b - 48)) l in
    if is_digit b then (rest.0, suc rest.1) else (acc, 0)

-- `readline`.
unfoldable pub line_end : ℕ → List ℕ → ℕ
line_end p [] = p
line_end p (b ∷ l) = let rest = line_end (p + 1) l in if b == 10 then p + 1 else rest

-- On fuel, at a position; `first` is the first number once it is read. The byte behind a number is
-- read and then stepped back over, also at the end of the file, where none was read.
unfoldable pub numbers : ℕ → List ℕ → ℕ → Option ℕ → Option (Error ⊎ (ℕ × ℕ))
unfolding number line_end
numbers zero bytes p first = none
numbers (suc fuel) bytes p first = elim (drop p bytes) [
  | [] ↦ some (inl value_error)
  | b ∷ l ↦ elim (is_space b) [
    | true ↦ numbers fuel bytes (p + 1) first
    | false ↦ elim (b == 35) [
      | true ↦ numbers fuel bytes (line_end (p + 1) l) first
      | false ↦ elim (is_digit b) [
        | false ↦ some (inl value_error)
        | true ↦ elim first [
          | some width ↦ some (inr (width, (number (b - 48) l).0))
          | none ↦
              let n = number (b - 48) l in
              numbers fuel bytes (if length l == n.1 then p + n.1 else p + n.1 + 1) (some n.0)
        ]
      ]
    ]
  ]
]

unfoldable pub netpbm : List ℕ → Option (Error ⊎ (ℕ × ℕ))
unfolding numbers
netpbm bytes = numbers (suc (suc (length bytes))) bytes 2 none

List-cases : (l : List ℕ) → (l ≡ []) ⊎ ((b : ℕ) × (m : List ℕ) × (l ≡ b ∷ m))
List-cases [] = inl refl
List-cases (b ∷ m) = inr (b, m, refl)

line_end_behind : (p : ℕ) (l : List ℕ) → p ≤ line_end p l
unfolding line_end
line_end_behind p [] = omega arith
line_end_behind p (b ∷ l) = ground (arith, line_end_behind (p + 1) l)

-- The first number may be followed by a step back.
abbrev spare : Option ℕ → ℕ
spare none = 1
spare (some n) = 0

numbers-total :
    (fuel : ℕ) (bytes : List ℕ) (p : ℕ) (first : Option ℕ)
    → 0 < fuel
    → length bytes + spare first < fuel + p
    → ¬ (numbers fuel bytes p first ≡ none)
unfolding numbers
numbers-total zero bytes p first z h = absurd (omega (arith, z))
numbers-total (suc fuel) bytes p first z h = elim (List-cases (drop p bytes)) [
  | inl e ↦ λ f. absurd (ground (arith, e, f))
  | inr (b, l, e) ↦
      let inside : p < length bytes = ground (arith, length-drop p bytes, e) in
      elim (Bool-cases (is_space b)) [
        | inl s ↦
            rw (e, s, numbers) (numbers-total fuel bytes (p + 1) first (omega arith) (omega arith))
        | inr s ↦ elim (Bool-cases (b == 35)) [
          | inl c ↦
              rw (e, s, c, numbers)
                (numbers-total fuel bytes (line_end (p + 1) l) first (omega arith)
                  (omega (arith, line_end_behind (p + 1) l)))
          | inr c ↦ elim (Bool-cases (is_digit b)) [
            | inr d ↦ λ f. absurd (ground (arith, e, s, c, d, f))
            | inl d ↦ elim (Option-cases first) [
              | inr (w, k) ↦ λ f. absurd (ground (arith, e, s, c, d, k, f))
              | inl k ↦
                  let n = number (b - 48) l in
                  let next = if length l == n.1 then p + n.1 else p + n.1 + 1 in
                  rw (e, s, c, d, k, numbers)
                    (numbers-total fuel bytes next (some n.0) (ground arith) (ground arith))
            ]
          ]
        ]
      ]
]

-- `get` ends on every Netpbm file: two numbers are read or it raises.
pub netpbm-total : (bytes : List ℕ) → (r : Error ⊎ (ℕ × ℕ)) × (netpbm bytes ≡ some r)
unfolding netpbm
netpbm-total bytes = elim (Option-cases (netpbm bytes)) [
  | inl e ↦
      absurd (numbers-total (suc (suc (length bytes))) bytes 2 none (omega arith) (omega arith) e)
  | inr (r, e) ↦ (r, e)
]
