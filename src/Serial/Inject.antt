-- ===== src/Serial/Inject.antt =====
-- Serial_Adapter::injectByte, the frame receiver of the unit tests, beside that of the loop.
use planetopia_nodes.Shared.{
  ℕ, zero, suc, ◌+◌, ◌*◌, ◌%◌, ◌<◌, bit_or, ◌≡◌, refl, sym, ap, ap₂, ◌∙◌, inl, inr, Bool, true,
  false, ◌||◌, List, [], ◌∷◌, ◌++◌, arith, ltb, leb, ◌==◌, if◌then◌else◌, Bool-cases, length, set,
  get_or, take, length-append, Bytes,
}
use planetopia_nodes.Serial.Frames.{
  FrameState, awaiting_len1, awaiting_len2, awaiting_payload, max_payload, Framer, FrameEvent,
  completes, fails, reset, receive_byte, receive,
}

-- The byte that completes a frame also sets `_lastCompletedOpcode`, the second part.
unfoldable pub inject_payload : Framer → ℕ → ℕ → Framer × ℕ × Bool
inject_payload f last b =
    let f' = record f { buffer = set f.buffer f.index b; index = f.index + 1 } in
    if leb f.length_ f'.index then (reset f', get_or f'.buffer 0 0, true) else (f', last, false)

-- `injectByte`: the result is whether a frame is complete.
unfoldable pub inject_byte : FrameState → Framer → ℕ → ℕ → Framer × ℕ × Bool
inject_byte awaiting_len1 f last b = (record f { length_ = b; state = awaiting_len2 }, last, false)
inject_byte awaiting_len2 f last b =
    let n = bit_or f.length_ (b * 256) % 65536 in
    if (n == 0) || ltb max_payload n
    then (reset f, last, false)
    else (record f { length_ = n; index = 0; state = awaiting_payload }, last, false)
inject_byte awaiting_payload f last b =
    if leb max_payload f.index then (reset f, last, false) else inject_payload f last b

-- All bytes of a text of the server, with how many frames they complete.
unfoldable pub inject : Framer → ℕ → Bytes → Framer × ℕ × ℕ
inject f last [] = (f, last, 0)
inject f last (b ∷ bs) =
    let (f₁, last₁, done) = inject_byte f.state f last b in
    let (f₂, last₂, n) = inject f₁ last₁ bs in (f₂, last₂, if done then n + 1 else n)

-- The payloads among what the loop's receiver asks for.
unfoldable pub payloads : List FrameEvent → List Bytes
payloads [] = []
payloads (completes p ∷ es) = p ∷ payloads es
payloads (fails f ∷ es) = payloads es

-- The first byte of the last payload, or what there was before.
unfoldable pub last_opcode : ℕ → List Bytes → ℕ
last_opcode last [] = last
last_opcode last (p ∷ ps) = last_opcode (get_or p 0 0) ps

-- The length that a frame is received with is not 0.
abbrev pub IsFilling : Framer → Type 0
IsFilling f = f.state ≡ awaiting_payload → 0 < f.length_

get_or-take : (n : ℕ) (bs : Bytes) → 0 < n → get_or (take n bs) 0 0 ≡ get_or bs 0 0
get_or-take zero bs h = absurd (omega arith)
get_or-take (suc n) [] h = refl
get_or-take (suc n) (b ∷ bs) h = refl

-- One byte under both.
byte-IsFilling :
    (s : FrameState) (f : Framer) (b : ℕ)
    → f.state ≡ s
    → IsFilling f
    → IsFilling (receive_byte s f b).0
unfolding receive_byte
byte-IsFilling awaiting_len1 f b e h = ground arith
byte-IsFilling awaiting_len2 f b e h = ground arith
byte-IsFilling awaiting_payload f b e h = ground arith

abbrev one_if : Bool → ℕ
one_if b = if b then 1 else 0

record Agrees (r : Framer × List FrameEvent) (q : Framer × ℕ × Bool) (last : ℕ) : Type 0 where
  same : q.0 ≡ r.0
  opcode : q.1 ≡ last_opcode last (payloads r.1)
  count : one_if q.2 ≡ length (payloads r.1)

byte-Agrees :
    (s : FrameState) (f : Framer) (last b : ℕ)
    → f.state ≡ s
    → IsFilling f
    → Agrees (receive_byte s f b) (inject_byte s f last b) last
unfolding receive_byte inject_byte inject_payload payloads last_opcode
byte-Agrees awaiting_len1 f last b e h = record { same = refl; opcode = refl; count = refl }
byte-Agrees awaiting_len2 f last b e h = elim (Bool-cases ((n == 0) || ltb max_payload n)) [
  | inl bad ↦ rw bad (record { same = refl; opcode = refl; count = refl })
  | inr good ↦ rw good (record { same = refl; opcode = refl; count = refl })
]
  where
    n : ℕ
    n = bit_or f.length_ (b * 256) % 65536
byte-Agrees awaiting_payload f last b e h = elim (Bool-cases (leb max_payload f.index)) [
  | inl full ↦ rw full (record { same = refl; opcode = refl; count = refl })
  | inr room ↦ rw room (elim (Bool-cases (leb f.length_ (f.index + 1))) [
    | inl done ↦ rw done (record {
      same = refl;
      opcode = sym (get_or-take f.length_ (set f.buffer f.index b) (h e));
      count = refl;
    })
    | inr more ↦ rw more (record { same = refl; opcode = refl; count = refl })
  ])
]

payloads-append : (es fs : List FrameEvent) → payloads (es ++ fs) ≡ payloads es ++ payloads fs
unfolding payloads
payloads-append [] fs = refl
payloads-append (completes p ∷ es) fs = ap (λ ps. p ∷ ps) (payloads-append es fs)
payloads-append (fails f ∷ es) fs = payloads-append es fs

last_opcode-append :
    (last : ℕ) (ps qs : List Bytes)
    → last_opcode last (ps ++ qs) ≡ last_opcode (last_opcode last ps) qs
unfolding last_opcode
last_opcode-append last [] qs = refl
last_opcode-append last (p ∷ ps) qs = last_opcode-append (get_or p 0 0) ps qs

-- What the receiver of the tests should give, by that of the loop.
abbrev pub expected : Framer → ℕ → Bytes → Framer × ℕ × ℕ
expected f last bs =
    let (f', es) = receive f bs in (f', last_opcode last (payloads es), length (payloads es))

-- From the same state, if a payload that is being received has a length, the receiver of the tests
-- ends in the state of the loop's receiver, counts as many frames as that hands on, and keeps the first
-- byte of the last one, or its old value where there is none.
pub inject-receive :
    (f : Framer) (last : ℕ) (bs : Bytes) → IsFilling f → inject f last bs ≡ expected f last bs
unfolding inject receive payloads last_opcode
inject-receive f last [] h = refl
inject-receive f last (b ∷ bs) h =
    let (f₁, es₁) = receive_byte f.state f b in
    let (q, last₁, done) = inject_byte f.state f last b in
    let agrees = byte-Agrees f.state f last b refl h in
    let next : inject q last₁ bs ≡ expected f₁ (last_opcode last (payloads es₁)) bs =
      rw (agrees.same, agrees.opcode)
        (inject-receive f₁ (last_opcode last (payloads es₁)) bs
          (byte-IsFilling f.state f b refl h)) in
    let es₂ = (receive f₁ bs).1 in
    rw next (
      ap₂ (λ (l n : ℕ). ((receive f₁ bs).0, l, n))
        (sym (
          ap (last_opcode last) (payloads-append es₁ es₂)
          ∙ last_opcode-append last (payloads es₁) (payloads es₂)))
        (ground (
          arith,
          agrees.count,
          ap length (payloads-append es₁ es₂),
          length-append (payloads es₁) (payloads es₂),
        )))
