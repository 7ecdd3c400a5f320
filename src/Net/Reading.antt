-- ===== src/Net/Reading.antt =====
-- A reading from the adapter of a node to that of the master.
use planetopia_nodes.Shared.{
  suc, ◌+◌, ◌%◌, ◌≤◌, ◌<◌, ◌≡◌, refl, sym, ap, subst, ◌∙◌, Bool, true, false, some, List, [], ◌∷◌,
  ◌++◌, arith, if◌then◌else◌, length, Bytes, bytes_eq,
}
use planetopia_nodes.Adapter.Types.{AdapterType}
use planetopia_nodes.Mesh.Types.{Mac, MeshMessage, adapter_data, Mesh, Effect, sends, broadcast_mac}
use planetopia_nodes.Mesh.Peers.{find_next_hop_to_master}
use planetopia_nodes.Mesh.Sending.{build_message, transmit, transmit_core}
use planetopia_nodes.Net.Air.{Station, Net, on_air, run}
use planetopia_nodes.Net.Relay.{IsReading, HasRoute, routed}
use planetopia_nodes.Net.Uplink.{
  macs, macs-append, head_mac, last_mac, IsPath, AreApart, carried, Ends, sent_one, passes,
}

-- The message that transmit makes of a reading.
abbrev pub reading_of : Station → AdapterType → Bytes → MeshMessage
reading_of s type bytes = (build_message s.mesh type (some bytes) adapter_data).1

-- The source behind its transmit, the other nodes, and what is in the air.
abbrev pub sending : Station → AdapterType → Bytes → List Station → List Station → Net
sending s type bytes others path =
    let (m, es) = transmit s.env s.mesh type (some bytes) in
    record {
      stations = (others ++ record s { mesh = m } ∷ []) ++ path;
      air = on_air s.env m.device_mac es;
      handed = [];
    }

if_false {ℓ} : {A : Type ℓ} (b : Bool) (x y : A) → b ≡ false → (if b then x else y) ≡ y
if_false true x y e = cc
if_false false x y e = refl

module _ (master : Mac) (s : Station) (type : AdapterType) (bytes : Bytes) where
  reading_of-IsReading :
      s.mesh.current_master.mac ≡ master
      → 0 < s.mesh.boot_epoch
      → bytes_eq master broadcast_mac ≡ false
      → IsReading master (reading_of s type bytes)
  unfolding build_message
  reading_of-IsReading e p u = record {
    version = refl;
    epoch = p;
    kind = refl;
    target = e;
    unicast = u;
  }

  abbrev sender : Mesh
  sender = let m = s.mesh in record m { tx_seq_num = (m.tx_seq_num + 1) % 65536 }

  transmitted :
      (next : Mac)
      → HasRoute master next s
      → transmit s.env s.mesh type (some bytes)
        ≡ (sender, sends next (reading_of s type bytes) ∷ [])
  unfolding transmit transmit_core build_message find_next_hop_to_master
  transmitted next h =
      if_false s.mesh.is_master _ _ h.plain
      ∙ ap (λ es. (sender, es))
          (routed s.env sender (reading_of s type bytes) next h.found h.hop h.radio)

  -- A started node with a route to the master, whose address is no broadcast, takes its reading over
  -- at most ten relays to it: where all addresses are different, each node is at rest and has a route
  -- to the next, none has seen the message, the radio loses nothing and the master accepts the message
  -- and has a callback, the master hands the reading to its adapter, once and unchanged but for the
  -- hops and the last of them, no other node hands anything over, and nothing stays in the air.
  pub reading_reaches_master :
      (relays : List Station) (last : Station) (others : List Station)
      → HasRoute master (head_mac relays last) s
      → 0 < s.mesh.boot_epoch
      → bytes_eq master broadcast_mac ≡ false
      → IsPath master (reading_of s type bytes) relays last
      → AreApart (macs (others ++ s ∷ [])) (macs (relays ++ last ∷ []))
      → length relays ≤ 10
      → Ends master
          (carried (reading_of s type bytes) (length relays) (last_mac s.mesh.device_mac relays))
          []
          (run (suc (length relays)) (sending s type bytes others (relays ++ last ∷ [])))
  unfolding build_message
  reading_reaches_master relays last others h epoch unicast path apart near =
      let next = head_mac relays last in
      let r = reading_of-IsReading h.master_mac epoch unicast in
      let s' = record s { mesh = sender } in
      let air =
        sent_one s.env s.mesh.device_mac next (reading_of s type bytes)
          (h.radio next (reading_of s type bytes)) in
      let path_ahead = relays ++ last ∷ [] in
      let same : macs (others ++ s ∷ []) ≡ macs (others ++ s' ∷ []) =
        macs-append others (s ∷ []) ∙ sym (macs-append others (s' ∷ [])) in
      let later =
        passes master (reading_of s type bytes) r relays last (others ++ s' ∷ []) s.mesh.device_mac
          0 s.mesh.device_mac [] path (subst (λ ms. AreApart ms (macs path_ahead)) same apart)
          (omega arith) in
      let first : sending s type bytes others path_ahead ≡ record {
        stations = (others ++ s' ∷ []) ++ path_ahead;
        air = record { src = s.mesh.device_mac; to = next; msg = reading_of s type bytes } ∷ [];
        handed = [];
      } =
        ap
          (λ (t : Mesh × List Effect). record {
            stations = (others ++ record s { mesh = t.0 } ∷ []) ++ path_ahead;
            air = on_air s.env t.0.device_mac t.1;
            handed = [];
          })
          (transmitted next h)
        ∙ ap (λ fs. record { stations = (others ++ s' ∷ []) ++ path_ahead; air = fs; handed = [] })
            air in
      subst
        (λ n.
          Ends master
            (carried (reading_of s type bytes) (length relays) (last_mac s.mesh.device_mac relays))
            [] (run (suc (length relays)) n))
        (sym first)
        (
          later.0,
          later.1
              ∙ ap
                  (λ n.
                    (
                      master,
                      carried (reading_of s type bytes) n (last_mac s.mesh.device_mac relays),
                    )
                    ∷ [])
                  (omega arith),
        )
