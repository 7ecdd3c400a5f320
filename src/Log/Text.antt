-- ===== src/Log/Text.antt =====
-- Arduino's String as far as the logs use it: literals, and numbers in base 16 and 10.
use planetopia_nodes.Shared.{
  ℕ, zero, suc, ◌+◌, ◌-◌, ◌/◌, ◌%◌, List, [], ◌∷◌, ◌++◌, ltb, if◌then◌else◌,
}
use Prim.Native.Char.{code}
use Prim.Native.String.{String}

-- The bytes of an ASCII text.
abbrev pub Text : Type 0
Text = List ℕ

abbrev pub text : String → Text
text String.[] = []
text (String.◌∷◌ c s) = code c ∷ text s

-- A digit below 16, from b'a' or from b'A' upwards behind the nine.
unfoldable pub digit : ℕ → ℕ → ℕ
digit a n = if ltb n 10 then 48 + n else a + (n - 10)

-- The digits of a number, on fuel.
unfoldable pub digits : ℕ → ℕ → ℕ → Text
digits base zero n = []
digits base (suc fuel) n =
    let rest = digits base fuel (n / base) in
    if ltb n base then digit b'a' n ∷ [] else rest ++ digit b'a' (n % base) ∷ []

-- `String(n, HEX)` and `String(n)` of a uint16_t, which has four or five digits at most.
unfoldable pub hex : ℕ → Text
unfolding digits
hex n = digits 16 4 n

unfoldable pub decimal : ℕ → Text
unfolding digits
decimal n = digits 10 5 n

-- `%02X` of a byte.
unfoldable pub hex_2 : ℕ → Text
hex_2 n = digit b'A' (n / 16) ∷ digit b'A' (n % 16) ∷ []
