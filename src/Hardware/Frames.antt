-- ===== src/Hardware/Frames.antt =====
-- What a receiver on the two lines of the display makes of the levels: data is sampled where the clock
-- rises, a falling data line under a high clock starts a transfer and a rising one ends it, and every
-- byte is followed by a ninth clock.
use planetopia_nodes.Shared.{
  ℕ, zero, suc, ◌+◌, ◌*◌, ◌/◌, ◌%◌, ◌≤◌, ◌<◌, bit_or, ◌≡◌, refl, sym, ap, ◌∙◌, Bool, true, false,
  not, ◌&&◌, List, [], ◌∷◌, ◌++◌, arith, ltb, ◌==◌, if◌then◌else◌, Bytes,
}
use mathlib.Core.List.{append-nil, append_assoc}
use planetopia_nodes.Hardware.Wire.{
  Edge, clk, dio, releases, drives, start, stop, write_bits, acknowledge, write_byte, write_all,
  set_segments,
}

pub record Receiver : Type 0 where
  pub clock : Bool
  pub line : Bool
  pub is_open : Bool
  pub count : ℕ
  pub shift : ℕ
  pub bytes : Bytes
  pub transfers : List Bytes

abbrev pub bit : Bool → ℕ
bit b = if b then 1 else 0

-- The clock rises: a bit is shifted in from above, or the ninth clock ends the byte.
unfoldable pub rise : Receiver → Receiver
rise r =
    if not r.is_open
    then record r { clock = true }
    else if ltb r.count 8
    then record r { clock = true; count = r.count + 1; shift = bit r.line * 128 + r.shift / 2 }
    else record r { clock = true; count = 0; shift = 0; bytes = r.bytes ++ r.shift ∷ [] }

unfoldable pub see : Receiver → Edge → Receiver
see r (clk level) = if level && not r.clock then rise r else record r { clock = level }
see r (dio level) =
    if r.clock && r.line && not level
    then record r { line = false; is_open = true; count = 0; shift = 0; bytes = [] }
    else if r.clock && not r.line && level
    then record r {
      line = true;
      is_open = false;
      count = 0;
      shift = 0;
      bytes = [];
      transfers = r.transfers ++ r.bytes ∷ [];
    }
    else record r { line = level }
see r releases = r
see r drives = r

unfoldable pub watch : Receiver → List Edge → Receiver
watch r [] = r
watch r (e ∷ es) = watch (see r e) es

watch-append : (r : Receiver) (es fs : List Edge) → watch r (es ++ fs) ≡ watch (watch r es) fs
unfolding watch
watch-append r [] fs = refl
watch-append r (e ∷ es) fs = watch-append (see r e) es fs

-- Both lines are high and no transfer is open.
abbrev pub idle : List Bytes → Receiver
idle ts = record {
  clock = true;
  line = true;
  is_open = false;
  count = 0;
  shift = 0;
  bytes = [];
  transfers = ts;
}

abbrev opened : Bool → Bool → ℕ → ℕ → Bytes → List Bytes → Receiver
opened c l n s bs ts = record {
  clock = c;
  line = l;
  is_open = true;
  count = n;
  shift = s;
  bytes = bs;
  transfers = ts;
}

-- The shift register and the data line after the bits of `b`.
shifted : ℕ → ℕ → ℕ → ℕ
shifted zero b s = s
shifted (suc n) b s = shifted n (b / 2) (bit (b % 2 == 1) * 128 + s / 2)

last_level : ℕ → ℕ → Bool → Bool
last_level zero b l = l
last_level (suc n) b l = last_level n (b / 2) (b % 2 == 1)

shifted_byte : (b : ℕ) → b < 256 → shifted 8 b 0 ≡ b
unfolding shifted
shifted_byte b h =
    rw
      (
        bit_odd b,
        bit_odd (b / 2),
        bit_odd (b / 2 / 2),
        bit_odd (b / 2 / 2 / 2),
        bit_odd (b / 2 / 2 / 2 / 2),
        bit_odd (b / 2 / 2 / 2 / 2 / 2),
        bit_odd (b / 2 / 2 / 2 / 2 / 2 / 2),
        bit_odd (b / 2 / 2 / 2 / 2 / 2 / 2 / 2),
      )
      (omega arith)
  where
    bit_odd : (b : ℕ) → bit (b % 2 == 1) ≡ b % 2
    bit_odd b = ground arith

module _ (bs : Bytes) (ts : List Bytes) where
  bit_sent :
      (c l v : Bool) (n s : ℕ)
      → n < 8
      → watch (opened c l n s bs ts) (clk false ∷ dio v ∷ clk true ∷ [])
        ≡ opened true v (n + 1) (bit v * 128 + s / 2) bs ts
  unfolding watch see rise
  bit_sent c l v n s h = ground arith

  bits_sent :
      (n k b s : ℕ) (c l : Bool)
      → k + suc n ≤ 8
      → watch (opened c l k s bs ts) (write_bits (suc n) b)
        ≡ opened true (last_level (suc n) b l) (k + suc n) (shifted (suc n) b s) bs ts
  unfolding write_bits shifted last_level
  bits_sent zero k b s c l h = bit_sent c l (b % 2 == 1) k s (omega arith)
  bits_sent (suc n) k b s c l h =
      watch-append (opened c l k s bs ts) (clk false ∷ dio (b % 2 == 1) ∷ clk true ∷ [])
        (write_bits (suc n) (b / 2))
      ∙ ap (λ r. watch r (write_bits (suc n) (b / 2))) (bit_sent c l (b % 2 == 1) k s (omega arith))
      ∙ bits_sent n (k + 1) (b / 2) (bit (b % 2 == 1) * 128 + s / 2) true (b % 2 == 1) (omega arith)
      ∙ ap
          (λ m.
            opened true (last_level (suc n) (b / 2) (b % 2 == 1)) m
              (shifted (suc n) (b / 2) (bit (b % 2 == 1) * 128 + s / 2)) bs ts)
          (omega arith)

  acknowledged :
      (l : Bool) (s : ℕ)
      → watch (opened true l 8 s bs ts) acknowledge ≡ opened false true 0 0 (bs ++ s ∷ []) ts
  unfolding watch see rise
  acknowledged l s = ground arith

  byte_sent :
      (b : ℕ) (l : Bool)
      → b < 256
      → watch (opened false l 0 0 bs ts) (write_byte b) ≡ opened false true 0 0 (bs ++ b ∷ []) ts
  unfolding write_byte
  byte_sent b l h =
      watch-append (opened false l 0 0 bs ts) (write_bits 8 b) acknowledge
      ∙ ap (λ r. watch r acknowledge) (bits_sent 7 0 b 0 false l (omega arith))
      ∙ ap (λ s. watch (opened true (last_level 8 b l) 8 s bs ts) acknowledge) (shifted_byte b h)
      ∙ acknowledged (last_level 8 b l) b

  started : watch (idle ts) start ≡ opened false false 0 0 [] ts
  unfolding watch see
  started = refl

  stopped : watch (opened false true 0 0 bs ts) stop ≡ idle (ts ++ bs ∷ [])
  unfolding watch see rise
  stopped = refl

abbrev pub AreBytes : Bytes → Type 0
AreBytes [] = Unit {0}
AreBytes (b ∷ bs) = (b < 256) × AreBytes bs

all_sent :
    (cs bs : Bytes) (ts : List Bytes)
    → AreBytes cs
    → watch (opened false true 0 0 bs ts) (write_all cs) ≡ opened false true 0 0 (bs ++ cs) ts
unfolding write_all watch
all_sent [] bs ts h = ap (λ x. opened false true 0 0 x ts) (sym (append-nil bs))
all_sent (c ∷ cs) bs ts (h, hs) =
    watch-append (opened false true 0 0 bs ts) (write_byte c) (write_all cs)
    ∙ ap (λ r. watch r (write_all cs)) (byte_sent bs ts c true h)
    ∙ all_sent cs (bs ++ c ∷ []) ts hs
    ∙ ap (λ x. opened false true 0 0 x ts) (append_assoc bs (c ∷ []) cs)

-- One transfer: the start, a first byte, more bytes, the stop.
transfer :
    (b : ℕ) (cs : Bytes) (ts : List Bytes)
    → b < 256
    → AreBytes cs
    → watch (idle ts) (start ++ (write_byte b ++ (write_all cs ++ stop)))
      ≡ idle (ts ++ (b ∷ cs) ∷ [])
transfer b cs ts h hs =
    watch-append (idle ts) start (write_byte b ++ (write_all cs ++ stop))
    ∙ ap (λ r. watch r (write_byte b ++ (write_all cs ++ stop))) (started [] ts)
    ∙ watch-append (opened false false 0 0 [] ts) (write_byte b) (write_all cs ++ stop)
    ∙ ap (λ r. watch r (write_all cs ++ stop)) (byte_sent [] ts b false h)
    ∙ watch-append (opened false true 0 0 (b ∷ []) ts) (write_all cs) stop
    ∙ ap (λ r. watch r stop) (all_sent cs (b ∷ []) ts hs)
    ∙ stopped (b ∷ cs) ts

short_transfer :
    (b : ℕ) (ts : List Bytes)
    → b < 256
    → watch (idle ts) (start ++ (write_byte b ++ stop)) ≡ idle (ts ++ (b ∷ []) ∷ [])
unfolding write_all
short_transfer b ts h = transfer b [] ts h tt

control_byte : (n : ℕ) → n < 8 → bit_or 0x88 n ≡ 0x88 + n
control_byte zero h = refl
control_byte (suc zero) h = refl
control_byte (suc (suc zero)) h = refl
control_byte (suc (suc (suc zero))) h = refl
control_byte (suc (suc (suc (suc zero)))) h = refl
control_byte (suc (suc (suc (suc (suc zero))))) h = refl
control_byte (suc (suc (suc (suc (suc (suc zero)))))) h = refl
control_byte (suc (suc (suc (suc (suc (suc (suc zero))))))) h = refl
control_byte (suc (suc (suc (suc (suc (suc (suc (suc n)))))))) h = absurd (omega arith)

-- From idle lines, the levels of `setSegments` carry three transfers, after which the lines are idle
-- again: the mode 0x40, the address 0xC0 with the segments, and 0x88 with the brightness, for segments
-- that are bytes and a brightness below eight.
pub watch-set_segments :
    (ts : List Bytes) (brightness : ℕ) (segs : Bytes)
    → AreBytes segs
    → brightness < 8
    → watch (idle ts) (set_segments brightness segs)
      ≡ idle (ts ++ ((0x40 ∷ []) ∷ (0xC0 ∷ segs) ∷ ((0x88 + brightness) ∷ []) ∷ []))
unfolding set_segments
watch-set_segments ts brightness segs h k =
    watch-append (idle ts) mode (shown ++ control)
    ∙ ap (λ r. watch r (shown ++ control)) (short_transfer 0x40 ts (omega arith))
    ∙ watch-append (idle ts₁) shown control
    ∙ ap (λ r. watch r control) (transfer 0xC0 segs ts₁ (omega arith) h)
    ∙ short_transfer (bit_or 0x88 brightness) ts₂ (rw (control_byte brightness k) (omega arith))
    ∙ ap (λ b. idle (ts₂ ++ (b ∷ []) ∷ [])) (control_byte brightness k)
    ∙ ap idle (simp append_assoc)
  where
    mode : List Edge
    mode = start ++ (write_byte 0x40 ++ stop)

    shown : List Edge
    shown = start ++ (write_byte 0xC0 ++ (write_all segs ++ stop))

    control : List Edge
    control = start ++ (write_byte (bit_or 0x88 brightness) ++ stop)

    ts₁ : List Bytes
    ts₁ = ts ++ (0x40 ∷ []) ∷ []

    ts₂ : List Bytes
    ts₂ = ts₁ ++ (0xC0 ∷ segs) ∷ []
