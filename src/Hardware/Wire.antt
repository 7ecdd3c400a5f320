-- ===== src/Hardware/Wire.antt =====
-- SevenSegDisplay.cpp: the levels that the firmware puts on the two lines of the TM1637. The waits of
-- three microseconds, and the chip's own pull on the data line at an acknowledge, are left out.
use planetopia_nodes.Shared.{
  ℕ, zero, suc, ◌/◌, ◌%◌, bit_and, bit_or, Bool, true, false, List, [], ◌∷◌, ◌++◌, ◌==◌, Bytes,
}

-- digitalWrite of the clock and of the data line, and pinMode of the data line.
pub data Edge : Type 0 where
  clk dio : Bool → Edge
  releases drives : Edge

-- `start` and `stop`
abbrev pub start : List Edge
start = dio true ∷ clk true ∷ dio false ∷ clk false ∷ []

abbrev pub stop : List Edge
stop = clk false ∷ dio false ∷ clk true ∷ dio true ∷ []

-- The loop of writeByte over the bits that are left, the lowest first.
unfoldable pub write_bits : ℕ → ℕ → List Edge
write_bits zero b = []
write_bits (suc n) b = clk false ∷ dio (b % 2 == 1) ∷ clk true ∷ write_bits n (b / 2)

-- The wait for the acknowledge; the reads of the data line change no level.
abbrev pub acknowledge : List Edge
acknowledge = clk false ∷ releases ∷ dio true ∷ clk true ∷ drives ∷ clk false ∷ []

-- `writeByte`
unfoldable pub write_byte : ℕ → List Edge
write_byte b = write_bits 8 b ++ acknowledge

unfoldable pub write_all : Bytes → List Edge
write_all [] = []
write_all (b ∷ bs) = write_byte b ++ write_all bs

-- The member `_brightness` after the constructor, and `setBrightness`.
abbrev pub initial_brightness : ℕ
initial_brightness = 7

abbrev pub brightness_of : ℕ → ℕ
brightness_of level = bit_and level 0x07

-- `setSegments`
unfoldable pub set_segments : ℕ → Bytes → List Edge
set_segments brightness segs =
    let mode = start ++ (write_byte 0x40 ++ stop) in
    let shown = start ++ (write_byte 0xC0 ++ (write_all segs ++ stop)) in
    let control = start ++ (write_byte (bit_or 0x88 brightness) ++ stop) in
    mode ++ (shown ++ control)
