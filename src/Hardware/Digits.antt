-- ===== src/Hardware/Digits.antt =====
-- What a reader of the display sees of a number.
use planetopia_nodes.Shared.{
  ℕ, ◌+◌, ◌*◌, ◌/◌, ◌%◌, ◌<◌, ◌≡◌, refl, ap, ◌↔◌, Bool, true, false, not, ◌&&◌, ◌||◌, Option, none,
  some, List, [], ◌∷◌, arith, ltb, ◌==◌, if◌then◌else◌, ltb→lt, all_below, all_below_lem, take,
  Bytes,
}
use planetopia_nodes.Hardware.Display.{ℤ, pos, font, encode_digit, digits, segments, show}

-- The digit whose picture this is.
unfoldable pub find_from : ℕ → Bytes → ℕ → Option ℕ
find_from i [] s = none
find_from i (f ∷ fs) s = if f == s then some i else find_from (i + 1) fs s

-- A display read as a decimal number: `none` where a place shows no decimal digit.
unfoldable pub read_number : ℕ → Bytes → Option ℕ
unfolding find_from
read_number acc [] = some acc
read_number acc (s ∷ ss) = elim (find_from 0 (take 10 font) s) [
  | none ↦ none
  | some d ↦ read_number (acc * 10 + d) ss
]

-- A number on four places the usual way: the zeros in front of its first other digit are left blank.
unfoldable pub right_aligned : Bool → List ℕ → Bytes
right_aligned started [] = []
right_aligned started (d ∷ []) = encode_digit (pos d) ∷ []
right_aligned started (d ∷ e ∷ ds) =
    let shown = started || not (d == 0) in
    (if shown then encode_digit (pos d) else 0) ∷ right_aligned shown (e ∷ ds)

abbrev pub decimal : ℕ → List ℕ
decimal n = n / 1000 % 10 ∷ n / 100 % 10 ∷ n / 10 % 10 ∷ n % 10 ∷ []

-- A zero stands behind another digit, and not in the last place.
abbrev pub has_inner_zero : ℕ → Bool
has_inner_zero n = (ltb 99 n && (n / 10 % 10 == 0)) || (ltb 999 n && (n / 100 % 10 == 0))

is_found : ℕ → Bool
is_found d = elim (find_from 0 (take 10 font) (encode_digit (pos d))) [
  | none ↦ false
  | some e ↦ e == d
]

found_table : all_below is_found 10 ≡ true
unfolding is_found find_from encode_digit
found_table = refl

find_from-encode_digit :
    (d : ℕ) → d < 10 → find_from 0 (take 10 font) (encode_digit (pos d)) ≡ some d
unfolding is_found
find_from-encode_digit d h = ground (arith, all_below_lem is_found 10 d found_table h)

is_lit : ℕ → Bool
is_lit d = ltb 0 (encode_digit (pos d))

lit_table : all_below is_lit 10 ≡ true
unfolding is_lit encode_digit
lit_table = refl

encode_digit_pos : (d : ℕ) → d < 10 → 0 < encode_digit (pos d)
unfolding is_lit
encode_digit_pos d h = ltb→lt 0 _ (all_below_lem is_lit 10 d lit_table h)

not_above : (n : ℕ) → n < 10000 → ltb 9999 n ≡ false
not_above n h = ground arith

abbrev places : ℕ → List ℤ
places n = pos (n / 1000 % 10) ∷ pos (n / 100 % 10) ∷ pos (n / 10 % 10) ∷ pos (n % 10) ∷ []

digits-places : (n : ℕ) → digits 4 n [] ≡ places n
unfolding digits
digits-places n = ground arith

show-places : (n : ℕ) (z : Bool) → n < 10000 → show (pos n) z ≡ segments z false 0 (places n)
unfolding show
show-places n z h = rw (not_above n h) (ap (λ ds. segments z false 0 ds) (digits-places n))

read_number_step :
    (acc d : ℕ) (ss : Bytes)
    → d < 10
    → read_number acc (encode_digit (pos d) ∷ ss) ≡ read_number (acc * 10 + d) ss
unfolding read_number
read_number_step acc d ss h = ground (arith, find_from-encode_digit d)

-- A number from 0 to 9999 that is shown with its leading zeros is read off the display again.
pub read_number-show : (n : ℕ) → n < 10000 → read_number 0 (show (pos n) true) ≡ some n
unfolding segments read_number
read_number-show n h =
    rw
      (
        show-places n true h,
        read_number_step 0 (n / 1000 % 10) _ (omega arith),
        read_number_step _ (n / 100 % 10) _ (omega arith),
        read_number_step _ (n / 10 % 10) _ (omega arith),
        read_number_step _ (n % 10) _ (omega arith),
      )
      (ap some (omega arith))

-- A number from 0 to 9999 that is shown without leading zeros appears the usual way exactly if none of
-- its zeros stands between its first and its last digit: `show` blanks such a zero, too.
pub show-right_aligned :
    (n : ℕ)
    → n < 10000
    → (show (pos n) false ≡ right_aligned false (decimal n)) ↔ (has_inner_zero n ≡ false)
unfolding segments right_aligned
show-right_aligned n h = rw (show-places n false h) (
    ground (
      arith,
      encode_digit_pos (n / 1000 % 10),
      encode_digit_pos (n / 100 % 10),
      encode_digit_pos (n / 10 % 10),
      encode_digit_pos 0,
    ))
