-- ===== src/Eeprom/Rom/Loops.antt =====
-- The two loops that walk over two ranges at once come down to loops over one range.
use planetopia_nodes.Shared.{
  ℕ, zero, suc, ◌+◌, ◌≤◌, ◌<◌, ◌≡◌, refl, sym, ap, ap₂, ◌∙◌, fun_ext, ◌≢◌, ◌⊎◌, inl, inr, [], ◌∷◌,
  arith, ◌==◌, if◌then◌else◌, length, get_or, Bytes,
}
use planetopia_nodes.Eeprom.Rom.Defs.{
  Rom, update, read, write, write_bytes, read_bytes, write_two, copy_two,
}
use planetopia_nodes.Eeprom.Rom.Laws.{read-write, read_bytes-congr}

update_comm :
    (m : ℕ → ℕ) (a v b w : ℕ) → a ≢ b → update (update m a v) b w ≡ update (update m b w) a v
unfolding update
update_comm m a v b w h = fun_ext (λ x. ground arith)

write_comm : (r : Rom) (a v b w : ℕ) → a ≢ b → write (write r a v) b w ≡ write (write r b w) a v
unfolding write
write_comm r a v b w h = ground (arith, update_comm r.cells a v b w h)

-- A write outside a range may be made before or after the range is written.
pub write_bytes-write :
    (r : Rom) (a : ℕ) (bs : Bytes) (b w : ℕ)
    → (b < a) ⊎ (a + length bs ≤ b)
    → write_bytes (write r b w) a bs ≡ write (write_bytes r a bs) b w
unfolding write_bytes
write_bytes-write r a [] b w h = refl
write_bytes-write r a (x ∷ xs) b w h =
    rw (write_comm r b w a x (elim h [ inl p ↦ omega arith | inr p ↦ omega arith ])) (
      write_bytes-write (write r a x) (a + 1) xs b w
        (elim h [ inl p ↦ inl (omega arith) | inr p ↦ inr (omega arith) ]))

pub write_two-write_bytes :
    (r : Rom) (a : ℕ) (xs : Bytes) (b : ℕ) (ys : Bytes)
    → length xs ≡ length ys
    → a + length xs ≤ b
    → write_two r a xs b ys ≡ write_bytes (write_bytes r a xs) b ys
unfolding write_two write_bytes
write_two-write_bytes r a [] b [] e h = refl
write_two-write_bytes r a [] b (y ∷ ys) e h = absurd (omega arith)
write_two-write_bytes r a (v ∷ xs) b [] e h = absurd (omega arith)
write_two-write_bytes r a (v ∷ xs) b (y ∷ ys) e h =
    write_two-write_bytes (write (write r a v) b y) (a + 1) xs (b + 1) ys (omega arith)
      (omega arith)
    ∙ ap (λ s. write_bytes s (b + 1) ys)
        (write_bytes-write (write r a v) (a + 1) xs b y (inr (omega arith)))

pub length-read_bytes : (r : Rom) (a n : ℕ) → length (read_bytes r a n) ≡ n
unfolding read_bytes
length-read_bytes r a zero = refl
length-read_bytes r a (suc n) = ap suc (length-read_bytes r (a + 1) n)

-- Where the sources lie below the targets, the copy reads what stood there before it began.
copy_two-write_two :
    (r : Rom) (a a' b b' n : ℕ)
    → a + n ≤ a'
    → b + n ≤ a'
    → a' + n ≤ b'
    → b' + n ≤ 512
    → copy_two r a a' b b' n ≡ write_two r a' (read_bytes r a n) b' (read_bytes r b n)
unfolding copy_two write_two read_bytes
copy_two-write_two r a a' b b' zero h₁ h₂ h₃ h₄ = refl
copy_two-write_two r a a' b b' (suc n) h₁ h₂ h₃ h₄ =
    rw (read-write r a' (read r a) b (omega arith), other b a' (omega arith))
      (copy_two-write_two r₂ (a + 1) (a' + 1) (b + 1) (b' + 1) n (omega arith) (omega arith)
          (omega arith) (omega arith)
        ∙ ap₂ (λ xs ys. write_two r₂ (a' + 1) xs (b' + 1) ys) (same (a + 1) (omega arith))
            (same (b + 1) (omega arith)))
  where
    other : (x y : ℕ) → x < y → (if x == y then read r a else read r x) ≡ read r x
    other x y lt = ground arith

    r₂ : Rom
    r₂ = write (write r a' (read r a)) b' (read r b)

    below : (x : ℕ) → x < a' → read r₂ x ≡ read r x
    below x lt =
        ground
          (arith, read-write (write r a' (read r a)) b' (read r b) x, read-write r a' (read r a) x)

    same : (c : ℕ) → c + n ≤ a' → read_bytes r₂ c n ≡ read_bytes r c n
    same c h = read_bytes-congr r₂ r c n (λ x p q. below x (omega arith))

pub copy_two-write_bytes :
    (r : Rom) (a a' b b' n : ℕ)
    → a + n ≤ a'
    → b + n ≤ a'
    → a' + n ≤ b'
    → b' + n ≤ 512
    → copy_two r a a' b b' n
      ≡ write_bytes (write_bytes r a' (read_bytes r a n)) b' (read_bytes r b n)
copy_two-write_bytes r a a' b b' n h₁ h₂ h₃ h₄ =
    copy_two-write_two r a a' b b' n h₁ h₂ h₃ h₄
    ∙ write_two-write_bytes r a' _ b' _ (length-read_bytes r a n ∙ sym (length-read_bytes r b n))
        (omega (arith, length-read_bytes r a n))

pub get_or-read_bytes :
    (r : Rom) (a n i : ℕ) → i < n → get_or (read_bytes r a n) i 0 ≡ read r (a + i)
unfolding read_bytes
get_or-read_bytes r a zero i h = absurd (omega arith)
get_or-read_bytes r a (suc n) zero h = ap (read r) (omega arith)
get_or-read_bytes r a (suc n) (suc i) h =
    get_or-read_bytes r (a + 1) n i (omega arith) ∙ ap (read r) (omega arith)
