-- ===== src/Serial/RoundTrip.antt =====
-- Frames from the writer to the receiver.
use mathlib.Core.List.{append_assoc}
use planetopia_nodes.Shared.{
  ℕ, zero, suc, ◌+◌, ◌*◌, ◌/◌, ◌%◌, ◌≤◌, ◌<◌, bit_and, bit_or, ◌≡◌, refl, sym, ap, ap₂, subst, ◌∙◌,
  Bool, true, false, ◌||◌, List, [], ◌∷◌, ◌++◌, map, arith, ltb, leb, ◌==◌, ==_iff, all_below,
  all_below_lem, length, set, take, length-append, length-set, Bytes,
}
use planetopia_nodes.Serial.Frames.{
  awaiting_len1, awaiting_len2, awaiting_payload, Framer, FrameEvent, completes, reset,
  receive_byte, receive, frame, frames,
}

pub receive-append :
    (f : Framer) (xs ys : Bytes)
    → receive f (xs ++ ys)
      ≡ ((receive (receive f xs).0 ys).0, (receive f xs).1 ++ (receive (receive f xs).0 ys).1)
unfolding receive
receive-append f [] ys = refl
receive-append f (x ∷ xs) ys =
    let f₁ : Framer = (receive_byte f.state f x).0 in
    ap (λ r. (r.0, (receive_byte f.state f x).1 ++ r.1)) (receive-append f₁ xs ys)
    ∙ ap (λ l. ((receive (receive f₁ xs).0 ys).0, l))
        (sym (
          append_assoc (receive_byte f.state f x).1 (receive f₁ xs).1
            (receive (receive f₁ xs).0 ys).1))

take-set :
    (bs : Bytes) (i b : ℕ) → i < length bs → take (suc i) (set bs i b) ≡ take i bs ++ (b ∷ [])
take-set [] i b h = absurd (omega arith)
take-set (x ∷ bs) zero b h = refl
take-set (x ∷ bs) (suc i) b h = ap (λ l. x ∷ l) (take-set bs i b (omega arith))

abbrev joins : ℕ → Bool
joins n = bit_or (bit_and n 255) (n / 256 % 256 * 256) % 65536 == n

joins_below : all_below joins 257 ≡ true
joins_below = refl

-- The two bytes of a length give the length back.
join_length : (n : ℕ) → n ≤ 256 → bit_or (bit_and n 255) (n / 256 % 256 * 256) % 65536 ≡ n
join_length n h =
    (==_iff (bit_or (bit_and n 255) (n / 256 % 256 * 256) % 65536) n).0
      (all_below_lem joins 257 n joins_below (omega arith))

-- In the midst of a frame, with `done` taken and `rest` to come.
record IsReading (f : Framer) (done rest : Bytes) : Type 0 where
  state_is : f.state ≡ awaiting_payload
  size : length f.buffer ≡ 256
  fits : f.length_ ≤ 256
  index_is : f.index ≡ length done
  length_is : f.length_ ≡ length done + length rest
  taken : take f.index f.buffer ≡ done

abbrev after_byte : Framer → ℕ → Framer
after_byte f b = record f { buffer = set f.buffer f.index b; index = f.index + 1 }

taken_after :
    (f : Framer) (done : Bytes) (b : ℕ) (rest : Bytes)
    → IsReading f done (b ∷ rest)
    → take (f.index + 1) (set f.buffer f.index b) ≡ done ++ (b ∷ [])
taken_after f done b rest r =
    ap (λ k. take k (set f.buffer f.index b)) {y = suc f.index} (omega arith)
    ∙ take-set f.buffer f.index b (omega (arith, r.index_is, r.length_is, r.fits, r.size))
    ∙ ap (λ l. l ++ (b ∷ [])) r.taken

room_left :
    (f : Framer) (done : Bytes) (b : ℕ) (rest : Bytes)
    → IsReading f done (b ∷ rest)
    → leb 256 f.index ≡ false
room_left f done b rest r = ground (arith, r.index_is, r.length_is, r.fits)

byte_more :
    (f : Framer) (done : Bytes) (b c : ℕ) (rest : Bytes)
    → IsReading f done (b ∷ c ∷ rest)
    → receive_byte f.state f b ≡ (after_byte f b, [])
unfolding receive_byte
byte_more f done b c rest r =
    let short : leb f.length_ (f.index + 1) ≡ false = ground (arith, r.index_is, r.length_is) in
    rw (r.state_is, room_left f done b (c ∷ rest) r, short) refl

byte_last :
    (f : Framer) (done : Bytes) (b : ℕ)
    → IsReading f done (b ∷ [])
    → receive_byte f.state f b ≡ (reset (after_byte f b), completes (done ++ (b ∷ [])) ∷ [])
unfolding receive_byte
byte_last f done b r =
    let full : leb f.length_ (f.index + 1) ≡ true = ground (arith, r.index_is, r.length_is) in
    let n : f.length_ ≡ f.index + 1 = omega (arith, r.index_is, r.length_is) in
    rw (r.state_is, room_left f done b [] r, full)
      (ap (λ l. (reset (after_byte f b), completes l ∷ []))
        (ap (λ k. take k (set f.buffer f.index b)) n ∙ taken_after f done b [] r))

after_byte-IsReading :
    (f : Framer) (done : Bytes) (b : ℕ) (rest : Bytes)
    → IsReading f done (b ∷ rest)
    → IsReading (after_byte f b) (done ++ (b ∷ [])) rest
after_byte-IsReading f done b rest r = record {
  state_is = r.state_is;
  size = length-set f.buffer f.index b ∙ r.size;
  fits = r.fits;
  index_is = omega (arith, r.index_is, length-append done (b ∷ []));
  length_is = omega (arith, r.length_is, length-append done (b ∷ []));
  taken = taken_after f done b rest r;
}

-- Between two frames.
pub record IsWaiting (f : Framer) : Type 0 where
  pub state_is : f.state ≡ awaiting_len1
  pub size : length f.buffer ≡ 256

-- What the receiver makes of a whole frame: its payload once, and it waits for the next.
abbrev Yields : Bytes → Framer × List FrameEvent → Type 0
Yields p r = IsWaiting r.0 × (r.1 ≡ completes p ∷ [])

receive_payload :
    (f : Framer) (done : Bytes) (b : ℕ) (rest : Bytes)
    → IsReading f done (b ∷ rest)
    → Yields (done ++ (b ∷ rest)) (receive f (b ∷ rest))
unfolding receive
receive_payload f done b [] r =
    rw (byte_last f done b r)
      (record { state_is = refl; size = length-set f.buffer f.index b ∙ r.size }, refl)
receive_payload f done b (c ∷ rest) r =
    let (w, e) =
      receive_payload (after_byte f b) (done ++ (b ∷ [])) c rest
        (after_byte-IsReading f done b (c ∷ rest) r) in
    rw (byte_more f done b c rest r)
      (w, e ∙ ap (λ l. completes l ∷ []) (append_assoc done (b ∷ []) (c ∷ rest)))

abbrev ready : Framer → ℕ → Framer
ready f n = record f { state = awaiting_payload; length_ = n; index = 0 }

second_length_byte :
    (f : Framer) (n : ℕ)
    → 0 < n
    → n ≤ 256
    → f.length_ ≡ bit_and n 255
    → receive_byte awaiting_len2 f (n / 256 % 256) ≡ (ready f n, [])
unfolding receive_byte
second_length_byte f n pos h e =
    let whole : bit_or f.length_ (n / 256 % 256 * 256) % 65536 ≡ n =
      ap (λ k. bit_or k (n / 256 % 256 * 256) % 65536) e ∙ join_length n h in
    let fits : ((n == 0) || ltb 256 n) ≡ false = ground arith in rw (whole, fits) refl

receive-length :
    (f : Framer) (b : ℕ) (bs : Bytes)
    → IsWaiting f
    → length (b ∷ bs) ≤ 256
    → receive f (frame (b ∷ bs)) ≡ receive (ready f (length (b ∷ bs))) (b ∷ bs)
unfolding receive frame receive_byte
receive-length f b bs w h =
    let n : ℕ = length (b ∷ bs) in
    let f₁ : Framer = record f { state = awaiting_len2; length_ = bit_and n 255 } in
    ap (λ s. receive' (receive_byte s f (bit_and n 255)) (n / 256 % 256 ∷ b ∷ bs)) w.state_is
    ∙ ap (λ r. receive' r (b ∷ bs)) (second_length_byte f₁ n (omega arith) h refl)
  where
    receive' : Framer × List FrameEvent → Bytes → Framer × List FrameEvent
    receive' r cs = ((receive r.0 cs).0, r.1 ++ (receive r.0 cs).1)

-- A frame with 1 to 256 bytes of payload, received between two frames, hands exactly its payload to
-- handleCompleteFrame, once, reports no error, and leaves the receiver between two frames.
pub receive-frame :
    (f : Framer) (p : Bytes)
    → IsWaiting f
    → 0 < length p
    → length p ≤ 256
    → Yields p (receive f (frame p))
receive-frame f [] w pos h = absurd (omega arith)
receive-frame f (b ∷ bs) w pos h = subst (Yields (b ∷ bs)) (sym (receive-length f b bs w h)) (
    receive_payload (ready f (length (b ∷ bs))) [] b bs (record {
      state_is = refl;
      size = w.size;
      fits = h;
      index_is = refl;
      length_is = omega arith;
      taken = refl;
    }))

-- The payloads that a receiver can take.
abbrev pub AreSendable : List Bytes → Type 0
AreSendable [] = Unit {0}
AreSendable (p ∷ ps) = (0 < length p) × (length p ≤ 256) × AreSendable ps

-- Frames with payloads of 1 to 256 bytes, written one after the other to a receiver between two frames,
-- come out one after the other with the payloads unchanged and no error, and leave the receiver between
-- two frames.
pub receive-frames :
    (f : Framer) (ps : List Bytes)
    → IsWaiting f
    → AreSendable ps
    → IsWaiting (receive f (frames ps)).0 × ((receive f (frames ps)).1 ≡ map completes ps)
unfolding frames receive
receive-frames f [] w _ = (w, refl)
receive-frames f (p ∷ ps) w (pos, fits, more) =
    let (w₁, e₁) = receive-frame f p w pos fits in
    let (w₂, e₂) = receive-frames (receive f (frame p)).0 ps w₁ more in
    subst (λ r. IsWaiting r.0 × (r.1 ≡ map completes (p ∷ ps)))
      (sym (receive-append f (frame p) (frames ps))) (w₂, ap₂ (λ a b. a ++ b) e₁ e₂)
