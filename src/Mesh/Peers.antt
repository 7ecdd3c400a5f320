-- ===== src/Mesh/Peers.antt =====
-- Mesh.cpp: the peer list, in memory, in the EEPROM and in the ESP-NOW driver. The driver's table is
-- that of tests/mocks/esp_now_mock.cpp.
use planetopia_nodes.Shared.{
  ℕ, zero, suc, Bool, true, false, not, ◌&&◌, ◌||◌, Option, none, some, List, [], ◌∷◌, ◌++◌, ltb,
  leb, ◌==◌, if◌then◌else◌, elapsed, length, take, drop, replicate, Bytes, bytes_eq, all_are,
}
use planetopia_nodes.Config
use planetopia_nodes.Errors.Codes.{ErrorTypeDigit, ModuleDigit, fault}
use planetopia_nodes.Eeprom.Layout
use planetopia_nodes.Eeprom.Records.{load_peer_list, save_peer_list}
use planetopia_nodes.Mesh.Types.{Mac, PeerInfo, EspPeer, Mesh, Env, Effect, fails}

-- `appendPeer`: the result and the list.
unfoldable pub append_peer : List PeerInfo → PeerInfo → Bool × List PeerInfo
append_peer ps p = if leb Layout.max_peers (length ps) then (false, ps) else (true, ps ++ (p ∷ []))

-- `findPeer`, where the pointer is only read.
unfoldable pub find_peer : List PeerInfo → Mac → Option PeerInfo
find_peer [] mac = none
find_peer (p ∷ ps) mac = if bytes_eq p.mac mac then some p else find_peer ps mac

-- `findPeer`, and a write through the pointer that it returns.
unfoldable pub update_peer : (PeerInfo → PeerInfo) → List PeerInfo → Mac → List PeerInfo
update_peer f [] mac = []
update_peer f (p ∷ ps) mac = if bytes_eq p.mac mac then f p ∷ ps else p ∷ update_peer f ps mac

abbrev pub is_known : List PeerInfo → Mac → Bool
is_known ps mac = elim (find_peer ps mac) [ none ↦ false | some p ↦ true ]

unfoldable pub is_peer_in_range : List PeerInfo → ℕ → Mac → Bool
is_peer_in_range ps now mac = elim (find_peer ps mac) [
  | none ↦ false
  | some p ↦ ltb (elapsed now p.last_seen_millis) Config.stale_peer_threshold_ms
]

-- The loop of findNextHopToMaster over peerMacs; `all` is the whole list.
unfoldable pub next_hop_in : List PeerInfo → ℕ → Mac → Mac → List PeerInfo → Option PeerInfo
next_hop_in all now hop device [] = none
next_hop_in all now hop device (p ∷ ps) =
    if bytes_eq p.mac hop && is_peer_in_range all now p.mac && not (bytes_eq p.mac device)
    then some p
    else next_hop_in all now hop device ps

unfoldable pub find_next_hop_to_master : Mesh → ℕ → Option PeerInfo
find_next_hop_to_master m now =
    if m.current_master.distance == 255
    then none
    else next_hop_in m.peers now m.current_master.next_hop m.device_mac m.peers

-- A record of the EEPROM: six bytes of MAC, then the key.
abbrev pub peer_record : PeerInfo → Bytes
peer_record p = p.mac ++ p.public_key

-- The buffer of savePeersToEEPROM, up to peerCount records: the rest of it is not written.
unfoldable pub peer_records : List PeerInfo → Bytes
peer_records [] = []
peer_records (p ∷ ps) = peer_record p ++ peer_records ps

unfoldable pub save_peers_to_eeprom : Mesh → Mesh
save_peers_to_eeprom m = record m {
  eeprom = save_peer_list m.eeprom (peer_records m.peers) (length m.peers);
}

-- The loop of loadPeersFromEEPROM over the slots left in the buffer.
unfoldable pub peers_of_records : ℕ → Bytes → List PeerInfo → List PeerInfo
peers_of_records zero bs ps = ps
peers_of_records (suc n) bs ps =
    let mac = take 6 bs in
    let peer : PeerInfo = record {
      mac = mac;
      public_key = take 32 (drop 6 bs);
      last_seen_millis = 0;
    } in
    peers_of_records n (drop 38 bs) (if all_are 255 mac then ps else (append_peer ps peer).1)

abbrev pub default_peer : Mac → PeerInfo
default_peer mac = record { mac = mac; public_key = replicate 32 0; last_seen_millis = 0 }

unfoldable pub append_defaults : List Mac → List PeerInfo → List PeerInfo
append_defaults [] ps = ps
append_defaults (mac ∷ macs) ps = append_defaults macs (append_peer ps (default_peer mac)).1

unfoldable pub load_peers_from_eeprom : Mesh → Mesh
load_peers_from_eeprom m =
    let loaded : List PeerInfo = elim (load_peer_list m.eeprom Layout.max_peers) [
      | none ↦ []
      | some bs ↦ peers_of_records Layout.max_peers bs []
    ] in
    record m {
      peers = elim loaded [ [] ↦ append_defaults Config.default_peers [] | p ∷ ps ↦ p ∷ ps ];
    }

-- The driver's table.
unfoldable pub is_peer_exist : List EspPeer → Mac → Bool
is_peer_exist [] mac = false
is_peer_exist (p ∷ ps) mac = bytes_eq p.addr mac || is_peer_exist ps mac

unfoldable pub del_peer : List EspPeer → Mac → List EspPeer
del_peer [] mac = []
del_peer (p ∷ ps) mac = if bytes_eq p.addr mac then del_peer ps mac else p ∷ del_peer ps mac

-- `registerPeerWithEspNow`: an unset key is all zero bytes.
unfoldable pub register_peer_with_esp_now : Env → List EspPeer → Mac → Bytes → Bytes → List EspPeer
register_peer_with_esp_now env table mac own_private peer_public =
    if is_peer_exist table mac
    then table
    else let has_public_key = not (all_are 0 peer_public) in
      table
      ++ (record {
        addr = mac;
        encrypt = has_public_key;
        lmk = if has_public_key then env.derive_lmk own_private peer_public else replicate 16 0;
      }
          ∷ [])

-- What addPeerToEEPROM and addPeer do with a peer that there is room for.
abbrev pub admit_peer : Env → Mesh → PeerInfo → Mesh
admit_peer env m p =
    let m' = save_peers_to_eeprom (record m { peers = (append_peer m.peers p).1 }) in
    record m' {
      driver = register_peer_with_esp_now env m'.driver p.mac m'.private_key p.public_key;
    }

unfoldable pub add_peer_to_eeprom : Env → Mesh → Mac → Mesh × List Effect
add_peer_to_eeprom env m mac =
    if is_known m.peers mac || bytes_eq mac m.device_mac
    then (m, [])
    else if leb Layout.max_peers (length m.peers)
    then (m, fails (fault ErrorTypeDigit.memory ModuleDigit.mesh 2) ∷ [])
    else (
      admit_peer env m
          (record { mac = mac; public_key = replicate 32 0; last_seen_millis = env.now }),
      [],
    )

unfoldable pub add_peer : Env → Mesh → Mac → Mesh × List Effect
add_peer env m mac =
    if is_known m.peers mac
    then (m, [])
    else if leb Layout.max_peers (length m.peers)
    then (m, fails (fault ErrorTypeDigit.memory ModuleDigit.mesh 6) ∷ [])
    else (admit_peer env m (default_peer mac), [])

abbrev last_peer : PeerInfo → List PeerInfo → PeerInfo
last_peer d [] = d
last_peer d (p ∷ ps) = last_peer p ps

-- The list without its last entry.
abbrev but_last : List PeerInfo → List PeerInfo
but_last [] = []
but_last (p ∷ []) = []
but_last (p ∷ q ∷ ps) = p ∷ but_last (q ∷ ps)

-- The search loop of removePeerFromEEPROM: the last peer takes the place of the removed one.
unfoldable pub swap_remove : List PeerInfo → Mac → List PeerInfo
swap_remove [] mac = []
swap_remove (p ∷ ps) mac =
    if bytes_eq p.mac mac
    then elim ps [ [] ↦ [] | q ∷ qs ↦ last_peer q qs ∷ but_last (q ∷ qs) ]
    else p ∷ swap_remove ps mac

-- `removePeer` and `removePeerFromEEPROM`; the mock's esp_now_del_peer always succeeds.
unfoldable pub remove_peer : Mesh → Mac → Mesh
remove_peer m mac =
    let m' = save_peers_to_eeprom (record m { peers = swap_remove m.peers mac }) in
    record m' { driver = del_peer m'.driver mac }

unfoldable pub update_peer_last_seen : Mesh → ℕ → Mac → Mesh
update_peer_last_seen m now mac =
    if bytes_eq mac m.device_mac
    then m
    else record m { peers = update_peer (λ p. record p { last_seen_millis = now }) m.peers mac }
