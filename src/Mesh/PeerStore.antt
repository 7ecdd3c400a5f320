-- ===== src/Mesh/PeerStore.antt =====
-- The peer list in the EEPROM: what of it a start finds again.
use planetopia_nodes.Shared.{
  ℕ, zero, suc, ◌+◌, ◌-◌, ◌*◌, ◌≤◌, ◌<◌, ◌≡◌, refl, sym, ap, subst, ◌∙◌, true, false, List, [], ◌∷◌,
  ◌++◌, map, arith, length, take, drop, replicate, length-append, take-length_append, Bytes,
  all_are,
}
use mathlib.Core.List.{append-nil, append_assoc}
use planetopia_nodes.Mesh.Types.{PeerInfo}
use planetopia_nodes.Mesh.Peers.{append_peer, peer_record, peer_records, peers_of_records}

-- A peer whose MAC and key fill their fields, and whose MAC is not the mark of a free slot.
pub record IsStorable (p : PeerInfo) : Type 0 where
  pub mac_size : length p.mac ≡ 6
  pub key_size : length p.public_key ≡ 32
  pub taken : all_are 255 p.mac ≡ false

abbrev pub AreStorable : List PeerInfo → Type 0
AreStorable [] = Unit {0}
AreStorable (p ∷ ps) = IsStorable p × AreStorable ps

-- What the EEPROM keeps of a peer.
abbrev pub stored : PeerInfo → PeerInfo
stored p = record p { last_seen_millis = 0 }

take_exact : (n : ℕ) (xs ys : Bytes) → length xs ≡ n → take n (xs ++ ys) ≡ xs
take_exact n xs ys e = subst (λ k. take k (xs ++ ys) ≡ xs) e (take-length_append xs ys)

drop-length_append : (xs ys : Bytes) → drop (length xs) (xs ++ ys) ≡ ys
drop-length_append [] ys = refl
drop-length_append (x ∷ xs) ys = drop-length_append xs ys

drop_exact : (n : ℕ) (xs ys : Bytes) → length xs ≡ n → drop n (xs ++ ys) ≡ ys
drop_exact n xs ys e = subst (λ k. drop k (xs ++ ys) ≡ ys) e (drop-length_append xs ys)

drop-replicate : (k n b : ℕ) → drop k (replicate n b) ≡ replicate (n - k) b
drop-replicate zero n b = let e : n ≡ n - 0 = omega arith in ap (λ j. replicate j b) e
drop-replicate (suc k) zero b = let e : 0 ≡ 0 - suc k = omega arith in ap (λ j. replicate j b) e
drop-replicate (suc k) (suc n) b =
    drop-replicate k n b
    ∙ (let e : n - k ≡ suc n - suc k = omega arith in ap (λ j. replicate j b) e)

free-replicate : (k n : ℕ) → all_are 255 (take k (replicate n 255)) ≡ true
unfolding all_are
free-replicate zero n = refl
free-replicate (suc k) zero = refl
free-replicate (suc k) (suc n) = free-replicate k n

-- Free slots leave the list as it is.
free_slots : (n j : ℕ) (ps : List PeerInfo) → peers_of_records n (replicate j 255) ps ≡ ps
unfolding peers_of_records
free_slots zero j ps = refl
free_slots (suc n) j ps =
    rw (free-replicate 6 j, drop-replicate 38 j 255) (free_slots n (j - 38) ps)

appended :
    (ps : List PeerInfo) (p : PeerInfo) → length ps < 10 → (append_peer ps p).1 ≡ ps ++ p ∷ []
unfolding append_peer
appended ps p h = ground arith

length-peer_record : (p : PeerInfo) → IsStorable p → length (peer_record p) ≡ 38
length-peer_record p s = length-append p.mac p.public_key ∙ omega (arith, s.mac_size, s.key_size)

pub length-peer_records :
    (ps : List PeerInfo) → AreStorable ps → length (peer_records ps) ≡ length ps * 38
unfolding peer_records
length-peer_records [] s = omega arith
length-peer_records (p ∷ ps) (s, ss) =
    length-append (peer_record p) (peer_records ps)
    ∙ omega (arith, length-peer_record p s, length-peer_records ps ss)

-- A slot that is taken adds its peer.
slot :
    (n : ℕ) (p : PeerInfo) (rest : Bytes) (acc : List PeerInfo)
    → IsStorable p
    → length acc < 10
    → peers_of_records (suc n) (peer_record p ++ rest) acc
      ≡ peers_of_records n rest (acc ++ stored p ∷ [])
unfolding peers_of_records
slot n p rest acc s room =
    let whole : peer_record p ++ rest ≡ p.mac ++ (p.public_key ++ rest) =
      append_assoc p.mac p.public_key rest in
    let mac : take 6 (peer_record p ++ rest) ≡ p.mac =
      ap (take 6) whole ∙ take_exact 6 p.mac _ s.mac_size in
    let key : take 32 (drop 6 (peer_record p ++ rest)) ≡ p.public_key =
      ap (λ bs. take 32 (drop 6 bs)) whole
      ∙ ap (take 32) (drop_exact 6 p.mac _ s.mac_size)
      ∙ take_exact 32 p.public_key rest s.key_size in
    let next = drop_exact 38 (peer_record p) rest (length-peer_record p s) in
    rw (mac, key, next, s.taken, appended acc (stored p) room) refl

pub peers_of_records-peer_records :
    (n j : ℕ) (ps acc : List PeerInfo)
    → AreStorable ps
    → length ps ≤ n
    → length acc + length ps ≤ 10
    → peers_of_records n (peer_records ps ++ replicate j 255) acc ≡ acc ++ map stored ps
unfolding peer_records
peers_of_records-peer_records n j [] acc s h k = free_slots n j acc ∙ sym (append-nil acc)
peers_of_records-peer_records zero j (p ∷ ps) acc s h k = absurd (omega arith)
peers_of_records-peer_records (suc n) j (p ∷ ps) acc (s, ss) h k =
    ap (λ bs. peers_of_records (suc n) bs acc)
      (append_assoc (peer_record p) (peer_records ps) (replicate j 255))
    ∙ slot n p (peer_records ps ++ replicate j 255) acc s (omega arith)
    ∙ peers_of_records-peer_records n j ps (acc ++ stored p ∷ []) ss (omega arith)
        (omega (arith, length-append acc (stored p ∷ [])))
    ∙ append_assoc acc (stored p ∷ []) (map stored ps)
