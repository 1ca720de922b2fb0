-- ===== src/MachineCore/Extract.antt =====
-- Extraction of a part of a text: `extractSliceAt` and `extractNumberAt`.
use machine_controller.Base.{
  ℕ, ◌+◌, ◌-◌, ◌*◌, ◌^◌, ◌≤◌, ◌<◌, ◌≡◌, Bool, ◌&&◌, ◌||◌, [], ◌∷◌, Bytes, Option, ◌⊎◌, inl, inr,
  none, some, arith, Option-cases, ltb, leb, length, take, drop, length-take, length-drop,
  if◌then◌else◌,
}
use machine_controller.Base.Int.{ℤ, pos, pos_part, ltb_ℤ, leb_ℤ, ◌≤ℤ◌, ◌<ℤ◌}

unfoldable pub extract_slice_at : Bytes → ℤ → ℤ → Option Bytes
extract_slice_at text start len =
    if ltb_ℤ start (pos 0) || leb_ℤ len (pos 0)
    then none
    else if leb (length text) (pos_part start)
    then none
    else (let avail : ℕ = length text - pos_part start in
        let count : ℕ = if ltb avail (pos_part len) then avail else pos_part len in
        some (take count (drop (pos_part start) text)))

abbrev pub is_digit : ℕ → Bool
is_digit c = leb b'0' c && leb c b'9'

unfoldable pub digits_of : Bytes → Bytes
digits_of [] = []
digits_of (c ∷ cs) = if is_digit c then c ∷ digits_of cs else digits_of cs

unfoldable pub decimal : ℕ → Bytes → ℕ
decimal acc [] = acc
decimal acc (c ∷ cs) = decimal (acc * 10 + (c - b'0')) cs

-- `std::stoi` of a text of digits: it throws on the empty text and past the range of `int`.
unfoldable pub stoi : Bytes → Option ℕ
stoi [] = none
stoi (c ∷ cs) = if ltb (decimal 0 (c ∷ cs)) (2 ^ 31) then some (decimal 0 (c ∷ cs)) else none

unfoldable pub number_of : Option Bytes → Option ℕ
number_of none = none
number_of (some slice) = stoi (digits_of slice)

unfoldable pub extract_number_at : Bytes → ℤ → ℤ → Option ℕ
extract_number_at text start len = number_of (extract_slice_at text start len)

-- The slice exists exactly if the start lies inside the text and the length is positive; it is then
-- not empty, no longer than asked for, and does not reach past the end of the text.
pub extract_slice_at_bounds :
    (text : Bytes) (start len : ℤ)
    → ((s : Bytes)
        → extract_slice_at text start len ≡ some s
        → (pos 0 ≤ℤ start)
          × (pos 0 <ℤ len)
          × (0 < length s)
          × (length s ≤ pos_part len)
          × (pos_part start + length s ≤ length text))
      × (extract_slice_at text start len ≡ none
          → (start <ℤ pos 0) ⊎ ((len ≤ℤ pos 0) ⊎ (length text ≤ pos_part start)))
unfolding extract_slice_at
extract_slice_at_bounds text start len = (
  λ s e. ground (
    arith,
    length-drop {0} (pos_part start) text,
    length-take {0} (length text - pos_part start) (drop (pos_part start) text),
    length-take {0} (pos_part len) (drop (pos_part start) text),
  ),
  λ e. ground arith,
)

stoi-lt : (ds : Bytes) {n : ℕ} → stoi ds ≡ some n → n < 2 ^ 31
unfolding stoi
stoi-lt [] e = cc
stoi-lt (c ∷ cs) e = ground arith

-- An extracted number is in the range of `int`.
pub extract_number_at-lt :
    (text : Bytes) (start len : ℤ) {n : ℕ} → extract_number_at text start len ≡ some n → n < 2 ^ 31
unfolding extract_number_at number_of
extract_number_at-lt text start len e = elim (Option-cases (extract_slice_at text start len)) [
  | inl h ↦ ground arith
  | inr (s, h) ↦ stoi-lt (digits_of s) (ground arith)
]
