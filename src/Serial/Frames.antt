-- ===== src/Serial/Frames.antt =====
-- Serial_Adapter.cpp: the receiver of length-prefixed frames, a byte at a time, and the writer.
use planetopia_nodes.Shared.{
  ℕ, ◌+◌, ◌*◌, ◌/◌, ◌%◌, bit_and, bit_or, ◌||◌, List, [], ◌∷◌, ◌++◌, ltb, leb, ◌==◌, if◌then◌else◌,
  length, set, take, replicate, Bytes,
}
use planetopia_nodes.Errors.Codes.{ErrorTypeDigit, ModuleDigit, Fault, fault}

pub data FrameState : Type 0 where
  awaiting_len1 awaiting_len2 awaiting_payload : FrameState

abbrev pub max_payload : ℕ
max_payload = 256

-- The members of Serial_Adapter that the receiver keeps.
pub record Framer : Type 0 where
  pub state : FrameState
  pub length_ : ℕ  -- frameLength, uint16_t
  pub index : ℕ  -- frameIndex
  pub buffer : Bytes  -- payloadBuffer

-- handleCompleteFrame, with the bytes that it may read, and err::fail.
pub data FrameEvent : Type 0 where
  completes : Bytes → FrameEvent
  fails : Fault → FrameEvent

-- The constructor.
abbrev pub new_framer : Framer
new_framer = record {
  state = awaiting_len1;
  length_ = 0;
  index = 0;
  buffer = replicate max_payload 0;
}

abbrev pub reset : Framer → Framer
reset f = record f { state = awaiting_len1; length_ = 0; index = 0 }

abbrev take_payload : Framer → ℕ → Framer × List FrameEvent
take_payload f b =
    let f' = record f { buffer = set f.buffer f.index b; index = f.index + 1 } in
    if leb f.length_ f'.index
    then (reset f', completes (take f.length_ f'.buffer) ∷ [])
    else (f', [])

-- The body of the loop over the received bytes, for one byte.
unfoldable pub receive_byte : FrameState → Framer → ℕ → Framer × List FrameEvent
receive_byte awaiting_len1 f b = (record f { length_ = b; state = awaiting_len2 }, [])
receive_byte awaiting_len2 f b =
    let n = bit_or f.length_ (b * 256) % 65536 in
    if (n == 0) || ltb max_payload n
    then (reset f, fails (fault ErrorTypeDigit.comm ModuleDigit.adapter 2) ∷ [])
    else (record f { length_ = n; index = 0; state = awaiting_payload }, [])
receive_byte awaiting_payload f b =
    if leb max_payload f.index
    then (reset f, fails (fault ErrorTypeDigit.comm ModuleDigit.adapter 3) ∷ [])
    else take_payload f b

-- The loop `while (Serial.available() > 0)` over the bytes that have come in.
unfoldable pub receive : Framer → Bytes → Framer × List FrameEvent
receive f [] = (f, [])
receive f (b ∷ bs) =
    let (f₁, es₁) = receive_byte f.state f b in let (f₂, es₂) = receive f₁ bs in (f₂, es₁ ++ es₂)

-- What onMeshDataImpl and relayEnrollmentToServer write: the length, low byte first, and the bytes.
unfoldable pub frame : Bytes → Bytes
frame bs = bit_and (length bs) 255 ∷ length bs / 256 % 256 ∷ bs

unfoldable pub frames : List Bytes → Bytes
frames [] = []
frames (p ∷ ps) = frame p ++ frames ps
