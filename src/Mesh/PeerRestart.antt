-- ===== src/Mesh/PeerRestart.antt =====
-- The peer list over a restart of the node.
use planetopia_nodes.Shared.{
  ℕ, zero, suc, ◌+◌, ◌-◌, ◌*◌, ◌≤◌, ◌<◌, ◌≡◌, refl, ap, ap₂, ◌∙◌, true, some, List, [], ◌∷◌, ◌++◌,
  map, arith, length, take, replicate, Bytes,
}
use planetopia_nodes.Eeprom.Rom.{
  Rom, read, fill, write_bytes, read_bytes, commit, read-fill, read-write_bytes, read_bytes-congr,
  read_bytes-write_bytes,
}
use planetopia_nodes.Eeprom.Manager.{Manager, force_flush}
use planetopia_nodes.Eeprom.Records.{load_peer_list, save_peer_list}
use planetopia_nodes.Eeprom.RoundTrips.{IsWritable}
use planetopia_nodes.Eeprom.Durability.{
  power_cycle, as_flash, started-power_cycle, read-power_cycle, read-as_flash-commit,
}
use planetopia_nodes.Mesh.Types.{PeerInfo, Mesh}
use planetopia_nodes.Mesh.Peers.{peer_records, save_peers_to_eeprom, load_peers_from_eeprom}
use planetopia_nodes.Mesh.PeerStore.{
  AreStorable, stored, length-peer_records, peers_of_records-peer_records,
}

take_all : (n : ℕ) (xs : Bytes) → length xs ≡ n → take n xs ≡ xs
take_all zero [] e = refl
take_all zero (x ∷ xs) e = absurd (omega arith)
take_all (suc n) [] e = refl
take_all (suc n) (x ∷ xs) e = ap (λ l. x ∷ l) (take_all n xs (omega arith))

read_bytes-append :
    (r : Rom) (a k n : ℕ) → read_bytes r a (k + n) ≡ read_bytes r a k ++ read_bytes r (a + k) n
unfolding read_bytes
read_bytes-append r a zero n =
    let e : 0 + n ≡ n = omega arith in let f : a ≡ a + 0 = omega arith in ap₂ (read_bytes r) f e
read_bytes-append r a (suc k) n =
    let e : suc k + n ≡ suc (k + n) = omega arith in
    let f : a + 1 + k ≡ a + suc k = omega arith in
    ap (read_bytes r a) e
    ∙ ap (λ bs. read r a ∷ bs)
        (read_bytes-append r (a + 1) k n ∙ ap (λ b. read_bytes r (a + 1) k ++ read_bytes r b n) f)

read_bytes-all :
    (r : Rom) (a n b : ℕ)
    → ((x : ℕ) → a ≤ x → x < a + n → read r x ≡ b)
    → read_bytes r a n ≡ replicate n b
unfolding read_bytes
read_bytes-all r a zero b h = refl
read_bytes-all r a (suc n) b h =
    ap₂ (λ x xs. x ∷ xs) (h a (omega arith) (omega arith))
      (read_bytes-all r (a + 1) n b (λ x p q. h x (omega arith) (omega arith)))

-- The buffer behind savePeerList.
abbrev peers_rom : Rom → Bytes → Rom
peers_rom r bs = write_bytes (fill r 32 255 380) 32 bs

read-peers_rom :
    (r : Rom) (bs : Bytes) (x : ℕ)
    → length bs ≤ 380
    → 32 + length bs ≤ x
    → x < 412
    → read (peers_rom r bs) x ≡ 255
read-peers_rom r bs x h p q =
    ground (arith, read-write_bytes (fill r 32 255 380) 32 bs x, read-fill r 32 255 380 x)

list_bytes :
    (r : Rom) (bs : Bytes)
    → length bs ≤ 380
    → read_bytes (peers_rom r bs) 32 380 ≡ bs ++ replicate (380 - length bs) 255
list_bytes r bs h =
    let s = peers_rom r bs in
    let whole : 380 ≡ length bs + (380 - length bs) = omega arith in
    ap (read_bytes s 32) whole
    ∙ read_bytes-append s 32 (length bs) (380 - length bs)
    ∙ ap₂ (λ x y. x ++ y) (read_bytes-write_bytes (fill r 32 255 380) 32 bs (omega arith))
        (read_bytes-all s (32 + length bs) (380 - length bs) 255
          (λ x p q. read-peers_rom r bs x h p (omega arith)))

-- The EEPROM behind savePeersToEEPROM and a flush.
saved-eq :
    (m : Mesh) (after : ℕ)
    → IsWritable m.eeprom
    → AreStorable m.peers
    → length m.peers ≤ 10
    → (force_flush (save_peers_to_eeprom m).eeprom after).rom
      ≡ commit (peers_rom m.eeprom.rom (peer_records m.peers))
unfolding save_peers_to_eeprom save_peer_list force_flush
saved-eq m after w s few = ground (
  arith,
  w.started,
  w.production,
  take_all (length m.peers * 38) (peer_records m.peers) (length-peer_records m.peers s),
)

list_loaded :
    (m : Manager) → m.is_initialized ≡ true → load_peer_list m 10 ≡ some (read_bytes m.rom 32 380)
unfolding load_peer_list
list_loaded m i = ground (arith, i)

-- What a started manager loads from a range that holds the records.
loaded-eq :
    (n : Mesh) (ps : List PeerInfo)
    → n.eeprom.is_initialized ≡ true
    → AreStorable ps
    → 0 < length ps
    → length ps ≤ 10
    → read_bytes n.eeprom.rom 32 380
      ≡ peer_records ps ++ replicate (380 - length (peer_records ps)) 255
    → (load_peers_from_eeprom n).peers ≡ map stored ps
unfolding load_peers_from_eeprom
loaded-eq n [] i s p few e = absurd (omega arith)
loaded-eq n (q ∷ qs) i s p few e =
    rw (list_loaded n.eeprom i ∙ ap some e, load_peers_from_eeprom)
      (rw
        (
          peers_of_records-peer_records 10 (380 - length (peer_records (q ∷ qs))) (q ∷ qs) [] s few
              (omega arith),
          load_peers_from_eeprom,
        )
        refl)

-- A list of one to ten peers whose MACs and keys fill their fields and whose MACs are not the mark of a
-- free slot, saved on a started manager, not in developer mode and
-- at the current layout version, and flushed, outlives a loss of power: the restarted node has the same
-- peers with the same keys in the same order, none of them heard of yet.
pub peers_survive_restart :
    (m n : Mesh) (after : ℕ)
    → IsWritable m.eeprom
    → read m.eeprom.rom 494 ≡ 3
    → AreStorable m.peers
    → 0 < length m.peers
    → length m.peers ≤ 10
    → (load_peers_from_eeprom (record n {
      eeprom = power_cycle (force_flush (save_peers_to_eeprom m).eeprom after);
    })).peers
      ≡ map stored m.peers
peers_survive_restart m n after w v s taken few =
    let saved = force_flush (save_peers_to_eeprom m).eeprom after in
    let bs = peer_records m.peers in
    let r = peers_rom m.eeprom.rom bs in
    let rom = saved-eq m after w s few in
    let size : length bs ≤ 380 = omega (arith, length-peer_records m.peers s) in
    let flash : (x : ℕ) → read (as_flash saved.rom) x ≡ read r x =
      λ x. ap (λ q. read (as_flash q) x) rom ∙ read-as_flash-commit r x in
    let version : read (as_flash saved.rom) 494 ≡ 3 =
      flash 494
      ∙ ground (
        arith,
        v,
        read-write_bytes (fill m.eeprom.rom 32 255 380) 32 bs 494,
        read-fill m.eeprom.rom 32 255 380 494,
      ) in
    let bytes : read_bytes (power_cycle saved).rom 32 380 ≡ bs ++ replicate (380 - length bs) 255 =
      read_bytes-congr (power_cycle saved).rom r 32 380
        (λ x p q. read-power_cycle saved x version (omega arith) (omega arith) ∙ flash x)
      ∙ list_bytes m.eeprom.rom bs size in
    loaded-eq (record n { eeprom = power_cycle saved }) m.peers (started-power_cycle saved) s taken
      few bytes
