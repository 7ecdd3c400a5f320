-- ===== src/Eeprom/Rom/Defs.antt =====
-- Bytes of the EEPROM buffer, and the loops that read and write ranges of it.
use planetopia_nodes.Shared.{ℕ, zero, suc, ◌+◌, [], ◌∷◌, ltb, ◌==◌, if◌then◌else◌, Bytes}

pub record Rom : Type 0 where
  pub cells : ℕ → ℕ
  pub committed : ℕ → ℕ

unfoldable pub update : (ℕ → ℕ) → ℕ → ℕ → ℕ → ℕ
update m a v x = if x == a then v else m x

-- `EEPROM.read(addr)`
unfoldable pub read : Rom → ℕ → ℕ
read r a = if ltb a 512 then r.cells a else 255

-- `EEPROM.write(addr, val)`
unfoldable pub write : Rom → ℕ → ℕ → Rom
unfolding update
write r a v = if ltb a 512 then record r { cells = update r.cells a v } else r

-- `EEPROM.commit()`
unfoldable pub commit : Rom → Rom
commit r = record r { committed = r.cells }

-- `for (i...) EEPROM.write(a + i, bytes[i])`
unfoldable pub write_bytes : Rom → ℕ → Bytes → Rom
unfolding write
write_bytes r a [] = r
write_bytes r a (b ∷ bs) = write_bytes (write r a b) (a + 1) bs

-- `for (i...) EEPROM.write(a + i, v)`
unfoldable pub fill : Rom → ℕ → ℕ → ℕ → Rom
unfolding write
fill r a v zero = r
fill r a v (suc n) = fill (write r a v) (a + 1) v n

-- `for (i < n) out[i] = EEPROM.read(a + i)`
unfoldable pub read_bytes : Rom → ℕ → ℕ → Bytes
unfolding read
read_bytes r a zero = []
read_bytes r a (suc n) = read r a ∷ read_bytes r (a + 1) n

-- Two ranges written in one loop, a byte of each in turn.
unfoldable pub write_two : Rom → ℕ → Bytes → ℕ → Bytes → Rom
unfolding write
write_two r a [] b ys = r
write_two r a (x ∷ xs) b [] = r
write_two r a (x ∷ xs) b (y ∷ ys) = write_two (write (write r a x) b y) (a + 1) xs (b + 1) ys

-- Two ranges of n bytes copied in one loop, `a` to `a'` and `b` to `b'`, a byte of each in turn.
unfoldable pub copy_two : Rom → ℕ → ℕ → ℕ → ℕ → ℕ → Rom
unfolding read write
copy_two r a a' b b' zero = r
copy_two r a a' b b' (suc n) =
    let r₁ = write r a' (read r a) in
    copy_two (write r₁ b' (read r₁ b)) (a + 1) (a' + 1) (b + 1) (b' + 1) n
