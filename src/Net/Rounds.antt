-- ===== src/Net/Rounds.antt =====
-- One round of Mesh::loop at a node at rest.
use planetopia_nodes.Shared.{
  ℕ, ◌≡◌, refl, sym, ap, subst, ◌∙◌, inl, inr, Bool, true, false, ◌&&◌, none, List, [], ◌∷◌, ◌++◌,
  arith, ltb, leb, if◌then◌else◌, Bool-cases, elapsed,
}
use planetopia_nodes.Eeprom.Manager.{flush_if_dirty}
use planetopia_nodes.Mesh.Types.{Mac, MeshMessage, master_beacon, Mesh, Effect, Env}
use planetopia_nodes.Mesh.Peers.{find_next_hop_to_master}
use planetopia_nodes.Mesh.Sending.{
  build_message, route_to_master, transmit_core, broadcast_master_beacon,
}
use planetopia_nodes.Mesh.Delivery.{drain_pending_enrollment}
use planetopia_nodes.Mesh.Loop.{dispatch_relay, loop}
use planetopia_nodes.Mesh.Hops.{sent, sent-append}
use planetopia_nodes.Net.Hearing.{drained}

-- What a round leaves of a node: nothing is received, and at most the relay is taken off.
pub record IsRound (m m' : Mesh) : Type 0 where
  pub device : m'.device_mac ≡ m.device_mac
  pub role : m'.is_master ≡ m.is_master
  pub route : m'.current_master ≡ m.current_master
  pub queue : m'.queue ≡ m.queue
  pub relay : m.relay.pending ≡ false → m'.relay.pending ≡ false

IsRound-trans : {l m n : Mesh} → IsRound l m → IsRound m n → IsRound l n
IsRound-trans a b = record {
  device = b.device ∙ a.device;
  role = b.role ∙ a.role;
  route = b.route ∙ a.route;
  queue = b.queue ∙ a.queue;
  relay = λ e. b.relay (a.relay e);
}

enrollment-IsRound : (env : Env) (m : Mesh) → IsRound m (drain_pending_enrollment env m).0
unfolding drain_pending_enrollment
enrollment-IsRound env m = record {
  device = ground arith;
  role = ground arith;
  route = ground arith;
  queue = ground arith;
  relay = λ e. ground arith;
}

relay-IsRound : (env : Env) (m : Mesh) → IsRound m (dispatch_relay env m).0
unfolding dispatch_relay transmit_core
relay-IsRound env m = record {
  device = ground arith;
  role = ground arith;
  route = ground arith;
  queue = ground arith;
  relay = λ e. ground arith;
}

beacon-IsRound : (env : Env) (m : Mesh) → IsRound m (broadcast_master_beacon env m).0
unfolding broadcast_master_beacon build_message
beacon-IsRound env m = record {
  device = ground arith;
  role = ground arith;
  route = ground arith;
  queue = ground arith;
  relay = λ e. ground arith;
}

-- What a master sends of itself: a beacon to all, or nothing.
abbrev pub IsOwnBeacon : Mac → List (Mac × MeshMessage) → Type 0
IsOwnBeacon d [] = Unit {0}
IsOwnBeacon d ((to, msg) ∷ fs) = (msg.last_hop ≡ d) × (fs ≡ [])

pub beacon-IsOwnBeacon :
    (env : Env) (m : Mesh) → IsOwnBeacon m.device_mac (sent (broadcast_master_beacon env m).1)
unfolding broadcast_master_beacon build_message sent
beacon-IsOwnBeacon env m = elim (Bool-cases (ltb (elapsed env.now m.last_beacon_millis) 3000)) [
  | inl early ↦ rw early tt
  | inr due ↦ rw due (refl, refl)
]

-- The enrollment goes to the server only.
sent_enrollment : (env : Env) (m : Mesh) → sent (drain_pending_enrollment env m).1 ≡ []
unfolding drain_pending_enrollment sent
sent_enrollment env m = elim (Bool-cases m.enrollment_relay.pending) [
  | inl e ↦ rw e (elim (Bool-cases env.has_relay_fn) [ inl f ↦ rw f refl | inr f ↦ rw f refl ])
  | inr e ↦ rw e refl
]

-- Without a relay that waits, and without a route, the relay sends nothing.
pub no_relay : (env : Env) (m : Mesh) → m.relay.pending ≡ false → sent (dispatch_relay env m).1 ≡ []
unfolding dispatch_relay sent
no_relay env m e = rw e refl

pub no_hop :
    (m : Mesh) (now : ℕ) → m.current_master.distance ≡ 255 → find_next_hop_to_master m now ≡ none
unfolding find_next_hop_to_master
no_hop m now e = ground (arith, e)

pub no_route :
    (env : Env) (m : Mesh) → m.current_master.distance ≡ 255 → sent (dispatch_relay env m).1 ≡ []
unfolding dispatch_relay transmit_core route_to_master sent
no_route env m e = elim (Bool-cases (m.relay.pending && leb m.relay.due env.now)) [
  | inl due ↦
      rw due (unrouted (let r = m.relay in record m { relay = record r { pending = false } }) e)
  | inr early ↦ rw early refl
]
  where
    unrouted :
        (m' : Mesh)
        → m'.current_master.distance ≡ 255
        → sent (route_to_master env m' m.relay.msg master_beacon) ≡ []
    unrouted m' e = rw (no_hop m' env.now e, route_to_master) refl

-- The node behind the enrollment and the flush, where the relay starts.
abbrev pub flushed : Env → Mesh → Mesh
flushed env m =
    (drain_pending_enrollment env (record m { eeprom = flush_if_dirty m.eeprom env.now env.now })).0

pub flushed-IsRound : (env : Env) (m : Mesh) → IsRound m (flushed env m)
flushed-IsRound env m =
    IsRound-trans
      (record { device = refl; role = refl; route = refl; queue = refl; relay = λ e. e })
      (enrollment-IsRound env (record m { eeprom = flush_if_dirty m.eeprom env.now env.now }))

-- The last part of the loop.
abbrev pub beaconed : Env → Mesh → Mesh × List Effect
beaconed env m = if m.is_master then broadcast_master_beacon env m else (m, [])

if_true : (b : Bool) (x y : Mesh × List Effect) → b ≡ true → (if b then x else y) ≡ x
if_true true x y e = refl
if_true false x y e = absurd cc

if_false : (b : Bool) (x y : Mesh × List Effect) → b ≡ false → (if b then x else y) ≡ y
if_false true x y e = absurd cc
if_false false x y e = refl

pub beaconed_master :
    (env : Env) (m : Mesh) → m.is_master ≡ true → beaconed env m ≡ broadcast_master_beacon env m
beaconed_master env m e = if_true m.is_master _ (m, []) e

pub beaconed_plain : (env : Env) (m : Mesh) → m.is_master ≡ false → beaconed env m ≡ (m, [])
beaconed_plain env m e = if_false m.is_master _ (m, []) e

if_IsRound :
    (m : Mesh) (b : Bool) (x y : Mesh × List Effect)
    → IsRound m x.0
    → IsRound m y.0
    → IsRound m (if b then x else y).0
if_IsRound m true x y p q = p
if_IsRound m false x y p q = q

beaconed-IsRound : (env : Env) (m : Mesh) → IsRound m (beaconed env m).0
beaconed-IsRound env m =
    if_IsRound m m.is_master (broadcast_master_beacon env m) (m, []) (beacon-IsRound env m)
      (record { device = refl; role = refl; route = refl; queue = refl; relay = λ e. e })

-- A round in which nothing is received is the relay and the beacon.
loop-eq :
    (env : Env) (m : Mesh)
    → m.queue.tail ≡ m.queue.head
    → loop env m ≡ (
        let (m₄, es₃) = dispatch_relay env (flushed env m) in
        let (m₅, es₄) = beaconed env m₄ in
        (
          m₅,
          []
              ++ (drain_pending_enrollment env
                  (record m { eeprom = flush_if_dirty m.eeprom env.now env.now })).1
              ++ es₃
              ++ es₄,
        ))
unfolding loop
loop-eq env m i = rw (drained 8 env m i) refl

-- The node behind its relay, where the beacon starts.
abbrev pub relayed_on : Env → Mesh → Mesh
relayed_on env m = (dispatch_relay env (flushed env m)).0

pub relayed_on-IsRound : (env : Env) (m : Mesh) → IsRound m (relayed_on env m)
relayed_on-IsRound env m = IsRound-trans (flushed-IsRound env m) (relay-IsRound env (flushed env m))

pub loop-IsRound : (env : Env) (m : Mesh) → m.queue.tail ≡ m.queue.head → IsRound m (loop env m).0
loop-IsRound env m i =
    subst (λ (x : Mesh × List Effect). IsRound m x.0) (sym (loop-eq env m i))
      (IsRound-trans (relayed_on-IsRound env m) (beaconed-IsRound env (relayed_on env m)))

pub sent-loop :
    (env : Env) (m : Mesh)
    → m.queue.tail ≡ m.queue.head
    → sent (loop env m).1
      ≡ sent (dispatch_relay env (flushed env m)).1 ++ sent (beaconed env (relayed_on env m)).1
unfolding sent
sent-loop env m i =
    let m₂ = record m { eeprom = flush_if_dirty m.eeprom env.now env.now } in
    let es₂ = (drain_pending_enrollment env m₂).1 in
    let es₃ = (dispatch_relay env (flushed env m)).1 in
    let es₄ = (beaconed env (relayed_on env m)).1 in
    ap (λ (x : Mesh × List Effect). sent x.1) (loop-eq env m i)
    ∙ sent-append (es₂ ++ es₃) es₄
    ∙ ap (λ l. l ++ sent es₄)
        (sent-append es₂ es₃ ∙ ap (λ l. l ++ sent es₃) (sent_enrollment env m₂))
