-- ===== src/Mesh/PeerLaws.antt =====
-- The peer list: look-ups after its changes, and its bound.
use planetopia_nodes.Shared.{
  ◌≡◌, refl, ap, ◌∙◌, inl, inr, true, false, Option, none, some, List, [], ◌∷◌, ◌++◌, arith,
  if◌then◌else◌, Bool-cases, length, replicate, Bytes, bytes_eq, all_are, bytes_eq_self,
}
use planetopia_nodes.Mesh.Types.{Mac, PeerInfo, EspPeer, Env}
use planetopia_nodes.Mesh.Peers.{
  find_peer, update_peer, is_peer_exist, del_peer, register_peer_with_esp_now,
}

pub find_peer-snoc :
    (ps : List PeerInfo) (p : PeerInfo)
    → find_peer ps p.mac ≡ none
    → find_peer (ps ++ (p ∷ [])) p.mac ≡ some p
unfolding find_peer
find_peer-snoc [] p e = ground (arith, bytes_eq_self p.mac)
find_peer-snoc (q ∷ ps) p e = ground (arith, find_peer-snoc ps p)

-- A write through the pointer of findPeer is seen by the next look-up, if it keeps the MAC.
pub find_peer-update_peer :
    (f : PeerInfo → PeerInfo) (ps : List PeerInfo) (mac : Mac) (p : PeerInfo)
    → ((q : PeerInfo) → (f q).mac ≡ q.mac)
    → find_peer ps mac ≡ some p
    → find_peer (update_peer f ps mac) mac ≡ some (f p)
unfolding find_peer update_peer
find_peer-update_peer f [] mac p k e = cc
find_peer-update_peer f (q ∷ ps) mac p k e = elim (Bool-cases (bytes_eq q.mac mac)) [
  | inl same ↦
      let e₂ : bytes_eq (f q).mac mac ≡ true = ap (λ x. bytes_eq x mac) (k q) ∙ same in
      let e₃ : q ≡ p = ground arith in rw (same, e₂) (ap (λ x. some (f x)) e₃)
  | inr other ↦ rw (other, other) (find_peer-update_peer f ps mac p k (ground arith))
]

pub length-update_peer :
    (f : PeerInfo → PeerInfo) (ps : List PeerInfo) (mac : Mac)
    → length (update_peer f ps mac) ≡ length ps
unfolding update_peer
length-update_peer f [] mac = refl
length-update_peer f (q ∷ ps) mac = ground (arith, length-update_peer f ps mac)

-- The driver's entry for a MAC.
unfoldable pub esp_entry : List EspPeer → Mac → Option EspPeer
esp_entry [] mac = none
esp_entry (p ∷ ps) mac = if bytes_eq p.addr mac then some p else esp_entry ps mac

is_peer_exist-del_peer : (t : List EspPeer) (mac : Mac) → is_peer_exist (del_peer t mac) mac ≡ false
unfolding is_peer_exist del_peer
is_peer_exist-del_peer [] mac = refl
is_peer_exist-del_peer (p ∷ t) mac = ground (arith, is_peer_exist-del_peer t mac)

esp_entry-snoc :
    (t : List EspPeer) (p : EspPeer)
    → is_peer_exist t p.addr ≡ false
    → esp_entry (t ++ (p ∷ [])) p.addr ≡ some p
unfolding is_peer_exist esp_entry
esp_entry-snoc [] p e = ground (arith, bytes_eq_self p.addr)
esp_entry-snoc (q ∷ t) p e = ground (arith, esp_entry-snoc t p)

-- What the driver holds for a peer with that key.
unfoldable pub secured : Env → Mac → Bytes → Bytes → EspPeer
secured env mac own_private key =
    if all_are 0 key
    then record { addr = mac; encrypt = false; lmk = replicate 16 0 }
    else record { addr = mac; encrypt = true; lmk = env.derive_lmk own_private key }

-- A peer that is deleted from the driver and registered again is there with the new key.
pub esp_entry-register_peer :
    (env : Env) (t : List EspPeer) (mac : Mac) (own_private key : Bytes)
    → esp_entry (register_peer_with_esp_now env (del_peer t mac) mac own_private key) mac
      ≡ some (secured env mac own_private key)
unfolding register_peer_with_esp_now secured
esp_entry-register_peer env t mac own_private key =
    rw (is_peer_exist-del_peer t mac) (elim (Bool-cases (all_are 0 key)) [
      | inl z ↦ rw z (esp_entry-snoc (del_peer t mac) _ (is_peer_exist-del_peer t mac))
      | inr z ↦ rw z (esp_entry-snoc (del_peer t mac) _ (is_peer_exist-del_peer t mac))
    ])
