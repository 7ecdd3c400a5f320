-- ===== src/Serial/Bounds.antt =====
-- The receiver of frames on any input: its buffer and what it reports.
use mathlib.Core.Bool.{true≢false}
use planetopia_nodes.Shared.{
  ℕ, ◌+◌, ◌*◌, ◌%◌, ◌≤◌, ◌<◌, bit_or, ◌≡◌, refl, sym, ap, ◌∙◌, inl, inr, Bool, true, false, ◌||◌,
  List, [], ◌∷◌, ◌++◌, arith, ltb, leb, ◌==◌, Bool-cases, length, set, length-set, length-take,
  Bytes,
}
use planetopia_nodes.Errors.Codes.{fault, ErrorTypeDigit, ModuleDigit}
use planetopia_nodes.Serial.Frames.{
  FrameState, awaiting_len1, awaiting_len2, awaiting_payload, Framer, FrameEvent, completes, fails,
  receive_byte, receive,
}

-- The index stands inside the frame, and the frame inside the buffer.
pub record IsSafe (f : Framer) : Type 0 where
  pub size : length f.buffer ≡ 256
  pub inside : f.state ≡ awaiting_payload → f.index < f.length_
  pub fits : f.state ≡ awaiting_payload → f.length_ ≤ 256

-- Whole frames of 1 to 256 bytes, and reports of a bad length only: never that the buffer overflows.
abbrev pub IsSound : FrameEvent → Type 0
IsSound (completes p) = (0 < length p) × (length p ≤ 256)
IsSound (fails e) = e ≡ fault ErrorTypeDigit.comm ModuleDigit.adapter 2

abbrev pub AreSound : List FrameEvent → Type 0
AreSound [] = Unit {0}
AreSound (e ∷ es) = IsSound e × AreSound es

AreSound-append : (xs ys : List FrameEvent) → AreSound xs → AreSound ys → AreSound (xs ++ ys)
AreSound-append [] ys h k = k
AreSound-append (x ∷ xs) ys (h, hs) k = (h, AreSound-append xs ys hs k)

abbrev Keeps : Framer × List FrameEvent → Type 0
Keeps r = IsSafe r.0 × AreSound r.1

abbrev is_payload : FrameState → Bool
is_payload awaiting_payload = true
is_payload _ = false

outside : {f : Framer} → length f.buffer ≡ 256 → is_payload f.state ≡ false → IsSafe f
outside {f} h e = record {
  size = h;
  inside = λ p. absurd (true≢false (sym (ap is_payload p) ∙ e));
  fits = λ p. absurd (true≢false (sym (ap is_payload p) ∙ e));
}

receive_byte-Keeps :
    (s : FrameState) (f : Framer) (b : ℕ) → f.state ≡ s → IsSafe f → Keeps (receive_byte s f b)
unfolding receive_byte
receive_byte-Keeps awaiting_len1 f b e h = (outside h.size refl, tt)
receive_byte-Keeps awaiting_len2 f b e h =
    let n : ℕ = bit_or f.length_ (b * 256) % 65536 in
    elim (Bool-cases ((n == 0) || ltb 256 n)) [
      | inl bad ↦ rw bad (outside h.size refl, (refl, tt))
      | inr good ↦
          rw good
            (record { size = h.size; inside = λ _. ground arith; fits = λ _. ground arith }, tt)
    ]
receive_byte-Keeps awaiting_payload f b e h = elim (Bool-cases (leb 256 f.index)) [
  | inl over ↦ ground (arith, h.inside e, h.fits e)
  | inr room ↦ elim (Bool-cases (leb f.length_ (f.index + 1))) [
    | inl full ↦
        rw (room, full)
          (
            outside (length-set f.buffer f.index b ∙ h.size) refl,
            (
              (
                omega (
                  arith,
                  length-take f.length_ (set f.buffer f.index b),
                  length-set f.buffer f.index b,
                  h.inside e,
                  h.fits e,
                  h.size,
                ),
                omega (
                  arith,
                  length-take f.length_ (set f.buffer f.index b),
                  length-set f.buffer f.index b,
                  h.fits e,
                ),
              ),
              tt,
            ),
          )
    | inr more ↦
        rw (room, more)
          (
            record {
              size = length-set f.buffer f.index b ∙ h.size;
              inside = λ _. ground arith;
              fits = λ _. h.fits e;
            },
            tt,
          )
  ]
]

-- On any bytes whatever, from a safe state, the receiver keeps its index inside the frame and the frame
-- inside its buffer, hands on only frames of 1 to 256 bytes, and reports only invalid lengths, never a
-- buffer overflow.
pub receive-Keeps : (f : Framer) (bs : Bytes) → IsSafe f → Keeps (receive f bs)
unfolding receive
receive-Keeps f [] h = (h, tt)
receive-Keeps f (b ∷ bs) h =
    let (h₁, s₁) = receive_byte-Keeps f.state f b refl h in
    let (h₂, s₂) = receive-Keeps (receive_byte f.state f b).0 bs h₁ in
    (
      h₂,
      AreSound-append (receive_byte f.state f b).1 (receive (receive_byte f.state f b).0 bs).1 s₁
          s₂,
    )
