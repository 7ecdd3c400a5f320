-- ===== src/Net/NextHop.antt =====
-- The search for the next hop behind the reception of a frame, which renews the sender's entry.
use planetopia_nodes.Shared.{
  ℕ, ◌≡◌, refl, inl, inr, Bool, true, false, not, ◌&&◌, some, List, [], ◌∷◌, arith, ◌==◌,
  Bool-cases, bytes_eq,
}
use planetopia_nodes.Mesh.Types.{Mac, PeerInfo, Mesh}
use planetopia_nodes.Mesh.Peers.{
  find_peer, update_peer, is_peer_in_range, next_hop_in, find_next_hop_to_master,
  update_peer_last_seen,
}

abbrev touch : ℕ → PeerInfo → PeerInfo
touch now p = record p { last_seen_millis = now }

-- A peer in range stays in range.
in_range-touch :
    (ps : List PeerInfo) (now : ℕ) (mac x : Mac)
    → is_peer_in_range ps now x ≡ true
    → is_peer_in_range (update_peer (touch now) ps mac) now x ≡ true
unfolding is_peer_in_range find_peer update_peer
in_range-touch [] now mac x h = h
in_range-touch (p ∷ ps) now mac x h = ground (arith, in_range-touch ps now mac x)

module _ (now : ℕ) (hop device : Mac) where
  abbrev fits : List PeerInfo → PeerInfo → Bool
  fits all q = bytes_eq q.mac hop && is_peer_in_range all now q.mac && not (bytes_eq q.mac device)

  -- The loop finds a peer.
  abbrev pub Finds : List PeerInfo → List PeerInfo → Type 0
  Finds all ps = (p : PeerInfo) × (next_hop_in all now hop device ps ≡ some p)

  Finds-here : (all ps : List PeerInfo) (q : PeerInfo) → fits all q ≡ true → Finds all (q ∷ ps)
  unfolding next_hop_in
  Finds-here all ps q e = (q, rw e refl)

  Finds-later : (all ps : List PeerInfo) (q : PeerInfo) → Finds all ps → Finds all (q ∷ ps)
  unfolding next_hop_in
  Finds-later all ps q (p, e) = elim (Bool-cases (fits all q)) [
    | inl t ↦ (q, rw t refl)
    | inr t ↦ (p, rw t e)
  ]

  fits-touch :
      (all : List PeerInfo) (q : PeerInfo) (mac : Mac)
      → fits all q ≡ true
      → fits (update_peer (touch now) all mac) q ≡ true
  fits-touch all q mac h = ground (arith, in_range-touch all now mac q.mac)

  Finds-rest :
      (all ps : List PeerInfo) (q p : PeerInfo)
      → fits all q ≡ false
      → next_hop_in all now hop device (q ∷ ps) ≡ some p
      → Finds all ps
  unfolding next_hop_in
  Finds-rest all ps q p t e = (p, ground arith)

  -- The same peers, looked up in the renewed list.
  Finds-wider :
      (all ps : List PeerInfo) (mac : Mac)
      → Finds all ps
      → Finds (update_peer (touch now) all mac) ps
  unfolding next_hop_in
  Finds-wider all [] mac (p, e) = cc
  Finds-wider all (q ∷ ps) mac (p, e) = elim (Bool-cases (fits all q)) [
    | inl t ↦ Finds-here (update_peer (touch now) all mac) ps q (fits-touch all q mac t)
    | inr t ↦
        Finds-later (update_peer (touch now) all mac) ps q
          (Finds-wider all ps mac (Finds-rest all ps q p t e))
  ]

  Finds-touch :
      (all ps : List PeerInfo) (mac : Mac)
      → Finds all ps
      → Finds (update_peer (touch now) all mac) (update_peer (touch now) ps mac)
  unfolding next_hop_in update_peer
  Finds-touch all [] mac (p, e) = cc
  Finds-touch all (q ∷ ps) mac (p, e) =
      let all' = update_peer (touch now) all mac in
      elim (Bool-cases (bytes_eq q.mac mac)) [
        | inl h ↦ rw h (elim (Bool-cases (fits all q)) [
          | inl t ↦ Finds-here all' ps (touch now q) (fits-touch all q mac t)
          | inr t ↦
              Finds-later all' ps (touch now q) (Finds-wider all ps mac (Finds-rest all ps q p t e))
        ])
        | inr h ↦ rw h (elim (Bool-cases (fits all q)) [
          | inl t ↦ Finds-here all' (update_peer (touch now) ps mac) q (fits-touch all q mac t)
          | inr t ↦
              Finds-later all' (update_peer (touch now) ps mac) q
                (Finds-touch all ps mac (Finds-rest all ps q p t e))
        ])
      ]

-- The node has a next hop, and the peer is there.
abbrev pub HasHop : Mesh → ℕ → Type 0
HasHop m now = (p : PeerInfo) × (find_next_hop_to_master m now ≡ some p)

pub HasHop-update_peer_last_seen :
    (m : Mesh) (now : ℕ) (mac : Mac) → HasHop m now → HasHop (update_peer_last_seen m now mac) now
unfolding find_next_hop_to_master update_peer_last_seen
HasHop-update_peer_last_seen m now mac (p, e) = elim (Bool-cases (bytes_eq mac m.device_mac)) [
  | inl own ↦ rw own (p, e)
  | inr other ↦
      let route = m.current_master in
      let far : (route.distance == 255) ≡ false = ground (arith, e) in
      let (p', e') =
        Finds-touch now route.next_hop m.device_mac m.peers m.peers mac (p, ground (arith, e)) in
      rw (other, far) (p', e')
]
