-- ===== src/Log/MacAddress.antt =====
-- MacAddress.h: an address of six bytes, and its text. The constructor from a text, which nothing calls,
-- is left out.
use planetopia_nodes.Shared.{Bool, [], ◌∷◌, ◌++◌, replicate, Bytes, bytes_eq, all_are}
use planetopia_nodes.Log.Text.{Text, text, hex_2}

-- `operator==`
abbrev pub is_equal : Bytes → Bytes → Bool
is_equal a b = bytes_eq a b

unfoldable pub is_zero : Bytes → Bool
is_zero mac = all_are 0 mac

unfoldable pub is_broadcast : Bytes → Bool
is_broadcast mac = all_are 255 mac

abbrev pub set_broadcast : Bytes
set_broadcast = replicate 6 255

abbrev pub set_zero : Bytes
set_zero = replicate 6 0

-- `toString`, "%02X:%02X:%02X:%02X:%02X:%02X"
unfoldable pub to_string : Bytes → Text
to_string [] = []
to_string (b ∷ []) = hex_2 b
to_string (b ∷ bs) = hex_2 b ++ text ":" ++ to_string bs
