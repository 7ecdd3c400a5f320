-- ===== src/Serial/CodecLaws.antt =====
-- What of a mesh message comes back from its encoding for the serial line.
use planetopia_nodes.Shared.{
  ℕ, suc, ◌+◌, ◌%◌, ◌<◌, ◌≡◌, refl, sym, ap, ap₂, ◌∙◌, inl, inr, Bool, true, false, not, ◌&&◌, none,
  some, [], ◌∷◌, ◌++◌, arith, if◌then◌else◌, ==_iff, Bool-cases, length, take, replicate,
  length-take, take-length_append, Bytes, all_are,
}
use planetopia_nodes.Adapter.Types.{of_raw, raw}
use planetopia_nodes.Mesh.Types.{Mac, type_of_byte, byte_of_type, MeshMessage}
use planetopia_nodes.Serial.Codec.{
  Nanopb, carries_key, to_pb, encode_mesh_message, copied, keeps_addresses, of_pb,
  decode_mesh_message,
}

-- A message as the fields of the struct hold it, with an enum value that has a byte.
pub record IsWire (msg : MeshMessage) : Type 0 where
  pub type_is : type_of_byte (byte_of_type msg.message_type % 256) ≡ msg.message_type
  pub data_is : of_raw (raw msg.data_type) ≡ msg.data_type
  pub version_in : msg.version < 256
  pub hop_in : msg.hop_count < 256
  pub seq_in : msg.seq_num < 65536
  pub payload_in : length msg.payload ≡ 64
  pub key_in : length msg.enrollment_public_key ≡ 32

take-append : (n : ℕ) (xs ys : Bytes) → take (length xs + n) (xs ++ ys) ≡ xs ++ take n ys
take-append n [] ys = ap (λ k. take k ys) {y = n} (omega arith)
take-append n (x ∷ xs) ys =
    ap (λ k. take k (x ∷ (xs ++ ys))) {y = suc (length xs + n)} (omega arith)
    ∙ ap (λ l. x ∷ l) (take-append n xs ys)

take-all : (xs : Bytes) → take (length xs) xs ≡ xs
take-all [] = refl
take-all (x ∷ xs) = ap (λ l. x ∷ l) (take-all xs)

-- Of a full data field the first 12 bytes arrive, and zeros behind them.
copied_payload :
    (bs : Bytes) → length bs ≡ 64 → copied 12 64 (some bs) ≡ take 12 bs ++ replicate 52 0
copied_payload bs h =
    ap (λ k. take k (take 12 bs ++ replicate 64 0)) {x = 64} {y = length (take 12 bs) + 52}
      (omega (arith, length-take 12 bs))
    ∙ take-append 52 (take 12 bs) (replicate 64 0)

copied_key : (bs : Bytes) → length bs ≡ 32 → copied 32 32 (some bs) ≡ bs
copied_key bs h =
    let whole : take 32 bs ≡ bs = ap (λ k. take k bs) (sym h) ∙ take-all bs in
    ap (λ l. take 32 (l ++ replicate 32 0)) whole
    ∙ ap (λ k. take k (bs ++ replicate 32 0)) (sym h)
    ∙ take-length_append bs (replicate 32 0)

zeros : (bs : Bytes) → all_are 0 bs ≡ true → bs ≡ replicate (length bs) 0
unfolding all_are
zeros [] h = refl
zeros (b ∷ bs) h = ap₂ (λ x l. x ∷ l) ((==_iff b 0).0 (ground arith)) (zeros bs (ground arith))

key_back :
    (b : Bool) (bs : Bytes)
    → length bs ≡ 32
    → copied 32 32 (if b && not (all_are 0 bs) then some bs else none)
      ≡ (if b then bs else replicate 32 0)
key_back false bs h = refl
key_back true bs h = elim (Bool-cases (all_are 0 bs)) [
  | inl z ↦ rw z (ap (λ n. replicate n 0) (sym h) ∙ sym (zeros bs z))
  | inr nz ↦ rw nz (copied_key bs h)
]

-- The message that the other end of the line takes over.
abbrev pub received : Mac → MeshMessage → MeshMessage
received own msg = record msg {
  origin = if keeps_addresses msg.message_type then msg.origin else own;
  last_hop = if keeps_addresses msg.message_type then msg.last_hop else own;
  payload = take 12 msg.payload ++ replicate 52 0;
  enrollment_public_key =
      if carries_key msg.message_type then msg.enrollment_public_key else replicate 32 0;
}

of_pb-to_pb :
    (own : Mac) (msg : MeshMessage) → IsWire msg → of_pb own (to_pb msg) ≡ received own msg
of_pb-to_pb own msg w =
    let v : msg.version % 256 ≡ msg.version = omega (arith, w.version_in) in
    let h : msg.hop_count % 256 ≡ msg.hop_count = omega (arith, w.hop_in) in
    let s : msg.seq_num % 65536 ≡ msg.seq_num = omega (arith, w.seq_in) in
    let k = key_back (carries_key msg.message_type) msg.enrollment_public_key w.key_in in
    rw (w.type_is, w.data_is, copied_payload msg.payload w.payload_in, k, v, h, s) refl

-- If the message fits its struct, and nanopb decodes the bytes that it made of the message, then what is decoded has the message's
-- header and the first 12 bytes of its data, with zeros for the other 52; its key if its type is one
-- that carries a key; and its origin and last hop for a JOIN_ACK and a broadcast command, where any
-- other type gets the decoding node's own address.
pub decode-encode :
    (pb : Nanopb) (own : Mac) (msg : MeshMessage) (size : ℕ) (bs : Bytes)
    → IsWire msg
    → pb.encode (to_pb msg) size ≡ some bs
    → pb.decode bs ≡ some (to_pb msg)
    → decode_mesh_message pb own (encode_mesh_message pb msg size) ≡ some (received own msg)
unfolding encode_mesh_message decode_mesh_message
decode-encode pb own msg size bs w e d =
    rw (e, encode_mesh_message, d, decode_mesh_message) (ap (λ m. some m) (of_pb-to_pb own msg w))
