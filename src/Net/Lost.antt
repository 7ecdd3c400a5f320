-- ===== src/Net/Lost.antt =====
-- What the rounds of settled nodes send, and lists of such nodes.
use planetopia_nodes.Shared.{
  ◌≡◌, refl, sym, ap, subst, ◌∙◌, inl, inr, Bool, true, false, List, [], ◌∷◌, ◌++◌, bytes_eq→eq,
}
use planetopia_nodes.Mesh.Types.{Mac, MeshMessage, Mesh, Effect, Env}
use planetopia_nodes.Mesh.Sending.{broadcast_master_beacon}
use planetopia_nodes.Mesh.Loop.{dispatch_relay, loop}
use planetopia_nodes.Mesh.Hops.{sent, beacon_relay_upstream}
use planetopia_nodes.Net.Air.{Frame, Station, Net, on_air}
use planetopia_nodes.Net.Rounds.{
  IsOwnBeacon, beacon-IsOwnBeacon, no_relay, no_route, flushed, flushed-IsRound, relayed_on,
  relayed_on-IsRound, beaconed, beaconed_master, beaconed_plain, loop-IsRound, sent-loop,
}
use planetopia_nodes.Net.Range.{Range, AreFresh}
use planetopia_nodes.Net.Settled.{
  IsPlaced, IsSettled, AreSettled, IsNear, AreNear, fresh-IsSettled, AreNearFrom, NearFrom-append,
  on_air-AreNear, upstream-AreNearFrom, own-AreNearFrom,
}

module _ (reach : Range) (master : Mac) where
  abbrev NearFrom : Mac → List (Mac × MeshMessage) → Type 0
  NearFrom d fs = AreNearFrom reach master d fs

  nothing_near : (d : Mac) {fs : List (Mac × MeshMessage)} → fs ≡ [] → NearFrom d fs
  nothing_near d e = subst (NearFrom d) (sym e) tt

  relay-NearFrom :
      (d : Mac) (env : Env) (m : Mesh) (b near : Bool)
      → IsPlaced reach master b near m
      → NearFrom d (sent (dispatch_relay env (flushed env m)).1)
  relay-NearFrom d env m true near (top, still) =
      nothing_near d (no_relay env (flushed env m) ((flushed-IsRound env m).relay still))
  relay-NearFrom d env m false true (plain, inl unknown) =
      nothing_near d (
        no_route env (flushed env m) (ap (λ r. r.distance) (flushed-IsRound env m).route ∙ unknown))
  relay-NearFrom d env m false true (plain, inr hop) =
      upstream-AreNearFrom reach master d (flushed env m) _
        (ap (λ r. r.next_hop) (flushed-IsRound env m).route ∙ hop)
        (beacon_relay_upstream env (flushed env m))
  relay-NearFrom d env m false false (plain, unknown) =
      nothing_near d (
        no_route env (flushed env m) (ap (λ r. r.distance) (flushed-IsRound env m).route ∙ unknown))

  beacon-NearFrom :
      (d : Mac) (env : Env) (m : Mesh) (b near : Bool)
      → m.device_mac ≡ d
      → (b ≡ true → d ≡ master)
      → IsPlaced reach master b near m
      → NearFrom d (sent (beaconed env (relayed_on env m)).1)
  unfolding sent
  beacon-NearFrom d env m true near e own (top, still) =
      let r = relayed_on-IsRound env m in
      let k = own-AreNearFrom reach master d _ (own refl) (
        subst (λ x. IsOwnBeacon x (sent (broadcast_master_beacon env (relayed_on env m)).1))
          (r.device ∙ e) (beacon-IsOwnBeacon env (relayed_on env m))) in
      subst (λ (x : Mesh × List Effect). NearFrom d (sent x.1))
        (sym (beaconed_master env (relayed_on env m) (r.role ∙ top))) k
  beacon-NearFrom d env m false near e own (plain, route) =
      let r = relayed_on-IsRound env m in
      subst (λ (x : Mesh × List Effect). NearFrom d (sent x.1))
        (sym (beaconed_plain env (relayed_on env m) (r.role ∙ plain))) tt

  pub loop-AreNear :
      (d : Mac) (env : Env) (m : Mesh)
      → IsSettled reach master d m
      → AreNear reach master (on_air env (loop env m).0.device_mac (loop env m).1)
  loop-AreNear d env m k =
      let r = loop-IsRound env m k.idle.empty in
      let all : NearFrom d (sent (loop env m).1) =
        subst (NearFrom d) (sym (sent-loop env m k.idle.empty)) (
          NearFrom-append reach master d _ _ (relay-NearFrom d env m _ _ k.place)
            (beacon-NearFrom d env m _ _ k.device (bytes_eq→eq d master) k.place)) in
      subst (λ x. AreNear reach master (on_air env x (loop env m).1)) (sym (r.device ∙ k.device))
        (on_air-AreNear reach master env d (loop env m).1 all)

  pub nodes-append :
      (xs ys : List Station)
      → AreSettled reach master xs
      → AreSettled reach master ys
      → AreSettled reach master (xs ++ ys)
  nodes-append [] ys p q = q
  nodes-append (x ∷ xs) ys (p, ps) q = (p, nodes-append xs ys ps q)

  -- A part of a list of nodes that is replaced by a settled one.
  pub replaced :
      (xs : List Station) (x y : Station) (ys : List Station)
      → AreSettled reach master (xs ++ x ∷ ys)
      → (IsSettled reach master x.mesh.device_mac x.mesh
          → IsSettled reach master y.mesh.device_mac y.mesh)
      → AreSettled reach master (xs ++ y ∷ ys)
  replaced [] x y ys (p, ps) f = (f p, ps)
  replaced (z ∷ xs) x y ys (p, ps) f = (p, replaced xs x y ys ps f)

  pub nth_node :
      (xs : List Station) (x : Station) (ys : List Station)
      → AreSettled reach master (xs ++ x ∷ ys)
      → IsSettled reach master x.mesh.device_mac x.mesh
  nth_node [] x ys (p, ps) = p
  nth_node (z ∷ xs) x ys (p, ps) = nth_node xs x ys ps

  pub frame_taken_out :
      (fs : List Frame) (f : Frame) (gs : List Frame)
      → AreNear reach master (fs ++ f ∷ gs)
      → IsNear reach master f × AreNear reach master (fs ++ gs)
  frame_taken_out [] f gs (p, ps) = (p, ps)
  frame_taken_out (x ∷ fs) f gs (p, ps) = let (q, qs) = frame_taken_out fs f gs ps in (q, (p, qs))

  pub fresh-AreSettled : (ss : List Station) → AreFresh master ss → AreSettled reach master ss
  fresh-AreSettled [] k = tt
  fresh-AreSettled (s ∷ ss) (k, ks) =
      (fresh-IsSettled reach master s.mesh k, fresh-AreSettled ss ks)

  -- The invariant of a net.
  pub record IsQuiet (n : Net) : Type 0 where
    pub stations : AreSettled reach master n.stations
    pub air : AreNear reach master n.air
