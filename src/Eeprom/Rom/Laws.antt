-- ===== src/Eeprom/Rom/Laws.antt =====
-- What each loop leaves at each address.
use planetopia_nodes.Shared.{
  ℕ, zero, suc, ◌+◌, ◌-◌, ◌≤◌, ◌<◌, ◌≡◌, refl, ap, ap₂, ◌&&◌, [], ◌∷◌, arith, ltb, leb, ◌==◌,
  if◌then◌else◌, length, get_or, Bytes,
}
use planetopia_nodes.Eeprom.Rom.Defs.{Rom, read, write, commit, write_bytes, fill, read_bytes}

pub read-commit : (r : Rom) (x : ℕ) → read (commit r) x ≡ read r x
unfolding read commit
read-commit r x = refl

pub read-write :
    (r : Rom) (a v x : ℕ) → a < 512 → read (write r a v) x ≡ (if x == a then v else read r x)
unfolding read write
read-write r a v x h = ground arith

pub read-write_bytes :
    (r : Rom) (a : ℕ) (bs : Bytes) (x : ℕ)
    → a + length bs ≤ 512
    → read (write_bytes r a bs) x
      ≡ (if leb a x && ltb x (a + length bs) then get_or bs (x - a) 0 else read r x)
unfolding write_bytes
read-write_bytes r a [] x h = ground arith
read-write_bytes r a (b ∷ bs) x h =
    ground
      (arith, read-write_bytes (write r a b) (a + 1) bs x, read-write r a b x, get_or_at bs x a)
  where
    get_or_at :
        (bs : Bytes) (x a : ℕ) → a < x → get_or (b ∷ bs) (x - a) 0 ≡ get_or bs (x - (a + 1)) 0
    get_or_at bs x a lt = let e : x - a ≡ suc (x - (a + 1)) = omega arith in rw e

pub read-fill :
    (r : Rom) (a v n x : ℕ)
    → a + n ≤ 512
    → read (fill r a v n) x ≡ (if leb a x && ltb x (a + n) then v else read r x)
unfolding fill
read-fill r a v zero x h = ground arith
read-fill r a v (suc n) x h =
    ground (arith, read-fill (write r a v) (a + 1) v n x, read-write r a v x)

-- Two buffers that agree on a range give the same bytes there.
pub read_bytes-congr :
    (r s : Rom) (a n : ℕ)
    → ((x : ℕ) → a ≤ x → x < a + n → read r x ≡ read s x)
    → read_bytes r a n ≡ read_bytes s a n
unfolding read_bytes
read_bytes-congr r s a zero h = refl
read_bytes-congr r s a (suc n) h =
    ap₂ (λ b bs. b ∷ bs) (h a (omega arith) (omega arith))
      (read_bytes-congr r s (a + 1) n (λ x p q. h x (omega arith) (omega arith)))

-- A buffer that holds the bytes of a list at a range gives that list.
pub read_bytes-eq :
    (r : Rom) (a : ℕ) (bs : Bytes)
    → ((i : ℕ) → i < length bs → read r (a + i) ≡ get_or bs i 0)
    → read_bytes r a (length bs) ≡ bs
unfolding read_bytes
read_bytes-eq r a [] h = refl
read_bytes-eq r a (b ∷ bs) h =
    ap₂ (λ b bs. b ∷ bs) (rw (← add_zero a) (h 0 (omega arith)))
      (read_bytes-eq r (a + 1) bs (λ i p. rw (shift i) (h (suc i) (omega arith))))
  where
    add_zero : (n : ℕ) → n + 0 ≡ n
    add_zero n = omega arith

    shift : (i : ℕ) → a + 1 + i ≡ a + suc i
    shift i = omega arith

pub read_bytes-write_bytes :
    (r : Rom) (a : ℕ) (bs : Bytes)
    → a + length bs ≤ 512
    → read_bytes (write_bytes r a bs) a (length bs) ≡ bs
read_bytes-write_bytes r a bs h =
    read_bytes-eq _ a bs (λ i p. ground (arith, read-write_bytes r a bs (a + i), sub_self i))
  where
    sub_self : (i : ℕ) → get_or bs (a + i - a) 0 ≡ get_or bs i 0
    sub_self i = ap (λ k. get_or bs k 0) (omega arith)
