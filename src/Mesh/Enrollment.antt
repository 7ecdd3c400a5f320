-- ===== src/Mesh/Enrollment.antt =====
-- Enrollment: what an accepted peer and its node know afterwards.
use planetopia_nodes.Shared.{
  ◌≤◌, ◌≡◌, refl, sym, ap, ◌∙◌, inl, inr, true, false, not, ◌&&◌, ◌||◌, none, some, [], ◌∷◌, arith,
  leb, Bool-cases, Option-cases, length, length-append, Bytes, bytes_eq,
}
use planetopia_nodes.Mesh.Types.{Mac, PeerInfo, MeshMessage, Mesh, Env}
use planetopia_nodes.Mesh.Peers.{append_peer, find_peer, is_known, save_peers_to_eeprom}
use planetopia_nodes.Mesh.PeerLaws.{
  find_peer-snoc, find_peer-update_peer, esp_entry, secured, esp_entry-register_peer,
  length-update_peer,
}
use planetopia_nodes.Mesh.Delivery.{fingerprint_matches, enroll_peer, process_join_ack}

-- That the peer is on the list with the key, and that the driver holds the entry for that key.
pub record IsEnrolled (env : Env) (m : Mesh) (mac : Mac) (key : Bytes) : Type 0 where
  pub listed : (p : PeerInfo) × (find_peer m.peers mac ≡ some p) × (p.public_key ≡ key)
  pub driven : esp_entry m.driver mac ≡ some (secured env mac m.private_key key)

driven_lem :
    (env : Env) (m : Mesh) (mac : Mac) (key : Bytes)
    → (is_known m.peers mac || not (leb 10 (length m.peers))) ≡ true
    → esp_entry (enroll_peer env m mac key).0.driver mac ≡ some (secured env mac m.private_key key)
unfolding enroll_peer save_peers_to_eeprom
driven_lem env m mac key h = elim (Bool-cases (is_known m.peers mac)) [
  | inl known ↦ rw known (esp_entry-register_peer env m.driver mac m.private_key key)
  | inr new ↦
      let room : leb 10 (length m.peers) ≡ false = ground arith in
      rw (new, room) (esp_entry-register_peer env m.driver mac m.private_key key)
]

abbrev fresh_peer : Mac → Bytes → PeerInfo
fresh_peer mac key = record { mac = mac; public_key = key; last_seen_millis = 0 }

listed_new :
    (env : Env) (m : Mesh) (mac : Mac) (key : Bytes)
    → find_peer m.peers mac ≡ none
    → leb 10 (length m.peers) ≡ false
    → find_peer (enroll_peer env m mac key).0.peers mac ≡ some (fresh_peer mac key)
unfolding enroll_peer append_peer save_peers_to_eeprom
listed_new env m mac key e room =
    let new : is_known m.peers mac ≡ false = ground arith in
    rw (new, room) (find_peer-snoc m.peers (fresh_peer mac key) e)

listed_again :
    (env : Env) (m : Mesh) (mac : Mac) (key : Bytes) (p : PeerInfo)
    → find_peer m.peers mac ≡ some p
    → find_peer (enroll_peer env m mac key).0.peers mac ≡ some (record p { public_key = key })
unfolding enroll_peer save_peers_to_eeprom
listed_again env m mac key p e =
    let known : is_known m.peers mac ≡ true = ground arith in
    rw known
      (find_peer-update_peer (λ q. record q { public_key = key }) m.peers mac p (λ q. refl) e)

listed_lem :
    (env : Env) (m : Mesh) (mac : Mac) (key : Bytes)
    → (is_known m.peers mac || not (leb 10 (length m.peers))) ≡ true
    → (p : PeerInfo) × (find_peer (enroll_peer env m mac key).0.peers mac ≡ some p)
      × (p.public_key ≡ key)
listed_lem env m mac key h = elim (Option-cases (find_peer m.peers mac)) [
  | inl e ↦
      let room : leb 10 (length m.peers) ≡ false = ground arith in
      (fresh_peer mac key, listed_new env m mac key e room, refl)
  | inr (p, e) ↦ (record p { public_key = key }, listed_again env m mac key p e, refl)
]

private_key-enroll_peer :
    (env : Env) (m : Mesh) (mac : Mac) (key : Bytes)
    → (enroll_peer env m mac key).0.private_key ≡ m.private_key
unfolding enroll_peer save_peers_to_eeprom
private_key-enroll_peer env m mac key = ground arith

-- If the peer is on the list or the list has room, then afterwards it is on the list with the key,
-- and the driver encrypts to it with the link key of that key pair, if the key is not all zero.
pub enroll_peer-IsEnrolled :
    (env : Env) (m : Mesh) (mac : Mac) (key : Bytes)
    → (is_known m.peers mac || not (leb 10 (length m.peers))) ≡ true
    → IsEnrolled env (enroll_peer env m mac key).0 mac key
enroll_peer-IsEnrolled env m mac key h = record {
  listed = listed_lem env m mac key h;
  driven =
      driven_lem env m mac key h
      ∙ ap (λ k. some (secured env mac k key)) (sym (private_key-enroll_peer env m mac key));
}

-- No enrollment makes the list longer than its array of ten.
pub enroll_peer_bounded :
    (env : Env) (m : Mesh) (mac : Mac) (key : Bytes)
    → length m.peers ≤ 10
    → length (enroll_peer env m mac key).0.peers ≤ 10
unfolding enroll_peer append_peer save_peers_to_eeprom
enroll_peer_bounded env m mac key h = elim (Bool-cases (is_known m.peers mac)) [
  | inl known ↦
      rw known (omega (arith, length-update_peer (λ q. record q { public_key = key }) m.peers mac))
  | inr new ↦ elim (Bool-cases (leb 10 (length m.peers))) [
    | inl full ↦ rw (new, full) h
    | inr room ↦ rw (new, room) (ground (arith, length-append m.peers (fresh_peer mac key ∷ [])))
  ]
]

-- A JOIN_ACK changes the stored enrollment or the known master only if it is addressed to the node and
-- carries the first four bytes of its public key; a known master is never replaced by one.
pub join_ack_checked :
    (env : Env) (m : Mesh) (msg : MeshMessage)
    → (bytes_eq msg.target m.device_mac && fingerprint_matches m msg) ≡ false
    → (process_join_ack env m msg).0 ≡ m
unfolding process_join_ack
join_ack_checked env m msg h = ground arith
