-- ===== src/Hardware/Display.antt =====
-- SevenSegDisplay.cpp: the digits of a number and the segments that show them.
use planetopia_nodes.Shared.{
  ℕ, zero, suc, ◌+◌, ◌/◌, ◌%◌, bit_or, Bool, true, false, not, ◌&&◌, List, [], ◌∷◌, ltb, ◌==◌,
  if◌then◌else◌, set, get_or, replicate, Bytes,
}

-- An int: `negsuc n` is -(n + 1).
pub data ℤ : Type 0 where
  pos : ℕ → ℤ
  negsuc : ℕ → ℤ

abbrev pub is_negative : ℤ → Bool
is_negative (pos n) = false
is_negative (negsuc n) = true

abbrev pub abs : ℤ → ℕ
abs (pos n) = n
abs (negsuc n) = suc n

-- FONT
abbrev pub font : Bytes
font =
    0b00111111 ∷ 0b00000110 ∷ 0b01011011 ∷ 0b01001111 ∷ 0b01100110 ∷ 0b01101101 ∷ 0b01111101
    ∷ 0b00000111 ∷ 0b01111111 ∷ 0b01101111 ∷ 0b01110111 ∷ 0b01111100 ∷ 0b00111001 ∷ 0b01011110
    ∷ 0b01111001 ∷ 0b01110001 ∷ []

-- `encodeDigit`
unfoldable pub encode_digit : ℤ → ℕ
encode_digit (pos d) = if ltb d 16 then get_or font d 0 else 0
encode_digit (negsuc zero) = 0x40
encode_digit (negsuc (suc n)) = 0

-- The loop that fills digits[n - 1] down to digits[0], in front of those already there.
unfoldable pub digits : ℕ → ℕ → List ℤ → List ℤ
digits zero v ds = ds
digits (suc n) v ds = digits n (v / 10) (pos (v % 10) ∷ ds)

abbrev pub is_zero : ℤ → Bool
is_zero (pos n) = n == 0
is_zero (negsuc n) = false

-- The loop that puts the minus.
unfoldable pub put_minus : List ℤ → List ℤ
put_minus [] = []
put_minus (d ∷ []) = negsuc 0 ∷ []
put_minus (d ∷ e ∷ ds) = if is_zero d then d ∷ put_minus (e ∷ ds) else negsuc 0 ∷ e ∷ ds

-- The loop that fills segs, from the index i on.
unfoldable pub segments : Bool → Bool → ℕ → List ℤ → Bytes
segments leading_zeros negative i [] = []
segments leading_zeros negative i (d ∷ ds) =
    (if not leading_zeros && is_zero d && ltb i 3 && not negative then 0 else encode_digit d)
    ∷ segments leading_zeros negative (i + 1) ds

-- The body of `show` up to setSegments.
unfoldable pub show : ℤ → Bool → Bytes
show value leading_zeros =
    let v = abs value in
    let ds = digits 4 (if ltb 9999 v then 9999 else v) [] in
    segments leading_zeros (is_negative value) 0 (if is_negative value then put_minus ds else ds)

-- That of `showWithDP`.
unfoldable pub show_with_dp : ℤ → Bool → Bytes
show_with_dp value leading_zeros =
    let v = abs value in
    let ds = digits 4 (if ltb 9999 v then 9999 else v) [] in
    let segs =
      segments leading_zeros (is_negative value) 0
        (if is_negative value then put_minus ds else ds) in
    set segs 3 (bit_or (get_or segs 3 0) 0x80)

-- `clear` and the self-test of `init`.
abbrev pub blank : Bytes
blank = replicate 4 0

abbrev pub test_segments : Bytes
test_segments = replicate 4 0x7F
