-- ===== src/Rs232/Settings.antt =====
-- `validateSettings` and `parseCharSetting`.
use machine_controller.Base.{
  ℕ, ◌+◌, ◌-◌, ◌*◌, ◌%◌, ◌^◌, ◌≤◌, ◌≡◌, ◌⊎◌, ◌↔◌, Bool, true, false, not, ◌&&◌, ◌||◌, [], ◌∷◌,
  Bytes, Option, none, some, arith, ltb, leb, ◌==◌, length, if◌then◌else◌,
}
use machine_controller.Base.Int.{ℤ, pos, negsuc}

pub record PortSettings : Type 0 where
  pub port : Bytes
  pub baud_rate : ℕ
  pub parity : ℕ
  pub data_bits : ℤ
  pub stop_bits : ℤ

abbrev pub is_int : ℕ → ℤ → Bool
is_int n (pos m) = m == n
is_int n (negsuc m) = false

-- A flag that each failed check clears.
unfoldable pub validate_settings : PortSettings → Bool
validate_settings s =
    let v0 : Bool = if length s.port == 0 then false else true in
    let v1 : Bool = if ltb s.baud_rate 9600 then false else v0 in
    let v2 : Bool =
      if not ((s.parity == b'N') || (s.parity == b'E') || (s.parity == b'O')) then false else v1 in
    let v3 : Bool = if not (is_int 7 s.data_bits || is_int 8 s.data_bits) then false else v2 in
    if not (is_int 1 s.stop_bits || is_int 2 s.stop_bits) then false else v3

-- What the JSON library tells of the member that holds a delimiter.
pub data CharSetting : Type 0 where
  absent : CharSetting
  integer : ℤ → CharSetting
  string : Bytes → CharSetting
  other : CharSetting

-- `static_cast<char>`, as a byte.
abbrev pub to_char : ℤ → ℕ
to_char (pos n) = n % 256
to_char (negsuc n) = 255 - n % 256

abbrev pub hex_digit : ℕ → Option ℕ
hex_digit c =
    if leb b'0' c && leb c b'9'
    then some (c - b'0')
    else if leb b'a' c && leb c b'f'
    then some (c - b'a' + 10)
    else if leb b'A' c && leb c b'F'
    then some (c - b'A' + 10)
    else none

-- The number that the leading hexadecimal digits stand for.
unfoldable pub hex_prefix : ℕ → Bytes → ℕ
hex_prefix acc [] = acc
hex_prefix acc (c ∷ cs) =
    let rest = λ (d : ℕ). hex_prefix (acc * 16 + d) cs in
    elim (hex_digit c) [ none ↦ acc | some d ↦ rest d ]

-- `std::stoi(s, nullptr, 16)` of `0x` and the given rest: past the range of `int` it throws.
unfoldable pub hex_char : Bytes → Option ℕ
hex_char cs = let n : ℕ = hex_prefix 0 cs in if ltb n (2 ^ 31) then some (n % 256) else none

unfoldable pub string_char : Bytes → Option ℕ
string_char [] = some 0
string_char (c ∷ []) = some c
string_char (c ∷ d ∷ cs) = if (c == b'0') && (d == b'x') then hex_char cs else some c

-- `none` is an exception.
unfoldable pub parse_char_setting : CharSetting → ℕ → Option ℕ
parse_char_setting absent default = some default
parse_char_setting (integer n) default = some (to_char n)
parse_char_setting (string s) default = string_char s
parse_char_setting other default = some default

-- The settings pass exactly if every one of them is in its range.
pub validate_settings_iff :
    (s : PortSettings)
    → (validate_settings s ≡ true) ↔ (
        (1 ≤ length s.port)
        × (9600 ≤ s.baud_rate)
        × ((s.parity ≡ b'N') ⊎ ((s.parity ≡ b'E') ⊎ (s.parity ≡ b'O')))
        × ((s.data_bits ≡ pos 7) ⊎ (s.data_bits ≡ pos 8))
        × ((s.stop_bits ≡ pos 1) ⊎ (s.stop_bits ≡ pos 2)))
unfolding validate_settings
validate_settings_iff s = (λ h. ground arith, λ h. ground arith)
