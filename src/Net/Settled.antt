-- ===== src/Net/Settled.antt =====
-- Nodes whose routes go straight to the master, and beacons that come from it or go to it.
use planetopia_nodes.Shared.{
  ◌≡◌, refl, sym, ap, subst, ◌∙◌, ◌⊎◌, inl, inr, Bool, true, false, List, [], ◌∷◌, ◌++◌,
  if◌then◌else◌, bytes_eq,
}
use planetopia_nodes.Mesh.Types.{
  Mac, MasterInfo, MeshMessage, master_beacon, RecvQueue, Mesh, Effect, sends, fails, delivers,
  relays_enrollment, Env,
}
use planetopia_nodes.Mesh.Hops.{sent, OnlyUpstream}
use planetopia_nodes.Net.Air.{Frame, Station, on_air}
use planetopia_nodes.Net.Hearing.{IsIdle}
use planetopia_nodes.Net.Handling.{IsChange}
use planetopia_nodes.Net.Sorts.{AreNoBeacons}
use planetopia_nodes.Net.Rounds.{IsOwnBeacon}
use planetopia_nodes.Net.Range.{Range, IsFresh}

module _ (reach : Range) (master : Mac) where
  -- A route, where there is one, is straight to the master, and in its range.
  abbrev pub IsStraight : Bool → MasterInfo → Type 0
  IsStraight true r = (r.distance ≡ 255) ⊎ (r.next_hop ≡ master)
  IsStraight false r = r.distance ≡ 255

  -- The master relays no beacons; the others are no masters and route straight.
  abbrev pub IsPlaced : Bool → Bool → Mesh → Type 0
  IsPlaced true near m = (m.is_master ≡ true) × (m.relay.pending ≡ false)
  IsPlaced false near m = (m.is_master ≡ false) × IsStraight near m.current_master

  pub record IsSettled (d : Mac) (m : Mesh) : Type 0 where
    pub device : m.device_mac ≡ d
    pub idle : IsIdle m.queue
    pub place : IsPlaced (bytes_eq d master) (reach master d) m

  abbrev pub AreSettled : List Station → Type 0
  AreSettled [] = Unit {0}
  AreSettled (s ∷ ss) = IsSettled s.mesh.device_mac s.mesh × AreSettled ss

  -- A beacon in the air comes from the master or goes to it.
  abbrev pub IsNear : Frame → Type 0
  IsNear f =
      f.msg.message_type ≡ master_beacon
      → ((f.src ≡ master) × (f.msg.last_hop ≡ master)) ⊎ (f.to ≡ master)

  abbrev pub AreNear : List Frame → Type 0
  AreNear [] = Unit {0}
  AreNear (f ∷ fs) = IsNear f × AreNear fs

  pub AreNear-append : (fs gs : List Frame) → AreNear fs → AreNear gs → AreNear (fs ++ gs)
  AreNear-append [] gs p q = q
  AreNear-append (f ∷ fs) gs (p, ps) q = (p, AreNear-append fs gs ps q)

  pub settled : (d : Mac) (m : Mesh) → IsSettled d m → IsSettled m.device_mac m
  settled d m s = subst (λ x. IsSettled x m) (sym s.device) s

  pub fresh-IsSettled : (m : Mesh) → IsFresh master m → IsSettled m.device_mac m
  fresh-IsSettled m f = record {
    device = refl;
    idle = f.idle;
    place = placed (bytes_eq m.device_mac master) (reach master m.device_mac) f.role;
  }
    where
      straight : (near : Bool) → IsStraight near m.current_master
      straight true = inl f.routeless
      straight false = f.routeless

      placed : (b near : Bool) → m.is_master ≡ b → IsPlaced b near m
      placed true near e = (e, f.relayless)
      placed false near e = (e, straight near)

  -- What a node sends, if its beacons are near.
  abbrev pub AreNearFrom : Mac → List (Mac × MeshMessage) → Type 0
  AreNearFrom d [] = Unit {0}
  AreNearFrom d ((to, msg) ∷ fs) =
      IsNear (record { src = d; to = to; msg = msg }) × AreNearFrom d fs

  pub NearFrom-append :
      (d : Mac) (xs ys : List (Mac × MeshMessage))
      → AreNearFrom d xs
      → AreNearFrom d ys
      → AreNearFrom d (xs ++ ys)
  NearFrom-append d [] ys p q = q
  NearFrom-append d ((to, msg) ∷ xs) ys (p, ps) q = (p, NearFrom-append d xs ys ps q)

  if_AreNear : (b : Bool) (x y : List Frame) → AreNear x → AreNear y → AreNear (if b then x else y)
  if_AreNear true x y p q = p
  if_AreNear false x y p q = q

  pub on_air-AreNear :
      (env : Env) (d : Mac) (es : List Effect) → AreNearFrom d (sent es) → AreNear (on_air env d es)
  unfolding on_air sent
  on_air-AreNear env d [] k = tt
  on_air-AreNear env d (sends to msg ∷ es) (p, ps) =
      if_AreNear (env.send_ok to msg) _ (on_air env d es) (p, on_air-AreNear env d es ps)
        (on_air-AreNear env d es ps)
  on_air-AreNear env d (fails f ∷ es) k = on_air-AreNear env d es k
  on_air-AreNear env d (delivers msg ∷ es) k = on_air-AreNear env d es k
  on_air-AreNear env d (relays_enrollment mac key ∷ es) k = on_air-AreNear env d es k

  pub quiet-AreNearFrom :
      (d : Mac) (fs : List (Mac × MeshMessage)) → AreNoBeacons fs → AreNearFrom d fs
  quiet-AreNearFrom d [] k = tt
  quiet-AreNearFrom d ((to, msg) ∷ fs) (p, ps) = (λ b. absurd (p b), quiet-AreNearFrom d fs ps)

  pub upstream-AreNearFrom :
      (d : Mac) (m : Mesh) (fs : List (Mac × MeshMessage))
      → m.current_master.next_hop ≡ master
      → OnlyUpstream m fs
      → AreNearFrom d fs
  upstream-AreNearFrom d m [] h k = tt
  upstream-AreNearFrom d m ((to, msg) ∷ fs) h (e, last) =
      (λ b. inr (e ∙ h), subst (AreNearFrom d) (sym last) tt)

  pub own-AreNearFrom :
      (d : Mac) (fs : List (Mac × MeshMessage)) → d ≡ master → IsOwnBeacon d fs → AreNearFrom d fs
  own-AreNearFrom d [] h k = tt
  own-AreNearFrom d ((to, msg) ∷ fs) h (e, last) =
      (λ b. inl (h, e ∙ h), subst (AreNearFrom d) (sym last) tt)

  pub changed :
      (b near : Bool) (msg : MeshMessage) (m m' : Mesh)
      → IsChange msg m m'
      → (b ≡ false → msg.message_type ≡ master_beacon → (near ≡ true) × (msg.last_hop ≡ master))
      → IsPlaced b near m
      → IsPlaced b near m'
  changed true near msg m m' c h (top, still) =
      (c.role ∙ top, elim c.relay [ inl e ↦ ap (λ r. r.pending) e ∙ still | inr e ↦ absurd cc ])
  changed false near msg m m' c h (plain, r) = (
    c.role ∙ plain,
    elim c.route [
      | inl e ↦ subst (IsStraight near) (sym e) r
      | inr (b, e) ↦
          let (n, l) = h refl b in subst (λ x. IsStraight x m'.current_master) (sym n) (inr (e ∙ l))
    ],
  )

  pub queued :
      (b near : Bool) (m : Mesh) (q : RecvQueue)
      → IsPlaced b near m
      → IsPlaced b near (record m { queue = q })
  queued true near m q p = p
  queued false near m q p = p
