-- ===== src/Net/Uplink.antt =====
-- A reading on its way from hop to hop to the master.
use planetopia_nodes.Shared.{
  ℕ, suc, ◌+◌, ◌≤◌, ◌≡◌, refl, sym, ap, ap₂, subst, ◌∙◌, true, false, List, [], ◌∷◌, ◌++◌, arith,
  length, bytes_eq, bytes_eq_self,
}
use mathlib.Core.List.{append-nil, append_assoc}
use planetopia_nodes.Mesh.Types.{
  Mac, MeshMessage, Mesh, Effect, sends, delivers, Env, broadcast_mac,
}
use planetopia_nodes.Mesh.Replay.{seen}
use planetopia_nodes.Net.Air.{
  Frame, Station, Net, on_air, handed_over, take_in, one_hears, all_hear, run,
}
use planetopia_nodes.Net.Relay.{IsReading, HasRoute, seen-congr}
use planetopia_nodes.Net.Passing.{behind, relay_hears, IsGateway, master_hears}

abbrev pub macs : List Station → List Mac
macs [] = []
macs (s ∷ ss) = s.mesh.device_mac ∷ macs ss

-- None of the addresses is this one.
abbrev pub Lacks : Mac → List Mac → Type 0
Lacks x [] = Unit {0}
Lacks x (y ∷ ys) = (bytes_eq x y ≡ false) × Lacks x ys

Lacks-append : (x : Mac) (ys zs : List Mac) → Lacks x ys → Lacks x zs → Lacks x (ys ++ zs)
Lacks-append x [] zs h k = k
Lacks-append x (y ∷ ys) zs (e, h) k = (e, Lacks-append x ys zs h k)

pub macs-append : (ss ts : List Station) → macs (ss ++ ts) ≡ macs ss ++ macs ts
macs-append [] ts = refl
macs-append (s ∷ ss) ts = ap (λ l. s.mesh.device_mac ∷ l) (macs-append ss ts)

-- A frame to one node is heard by no other.
deaf :
    (f : Frame) (ss : List Station)
    → bytes_eq f.to broadcast_mac ≡ false
    → Lacks f.to (macs ss)
    → all_hear f ss ≡ record { stations = ss; air = []; handed = [] }
unfolding all_hear one_hears
deaf f [] u h = refl
deaf f (s ∷ ss) u (e, h) = rw (e, u) (rw (deaf f ss u h) refl)

heard :
    (f : Frame) (s : Station) (m : Mesh) (es : List Effect)
    → bytes_eq f.to s.mesh.device_mac ≡ true
    → take_in s f ≡ (m, es)
    → one_hears f s ≡ record {
      stations = record s { mesh = m } ∷ [];
      air = on_air s.env m.device_mac es;
      handed = handed_over m.device_mac es;
    }
unfolding one_hears
heard f s m es e t = rw (e, t) refl

module _ (f : Frame) (u : bytes_eq f.to broadcast_mac ≡ false) (s : Station) (m : Mesh)
    (es : List Effect) (to_s : bytes_eq f.to s.mesh.device_mac ≡ true) (t : take_in s f ≡ (m, es))
    (rest : List Station) (apart : Lacks f.to (macs rest)) where
  abbrev after : List Station → Net
  after done = record {
    stations = done ++ record s { mesh = m } ∷ rest;
    air = on_air s.env m.device_mac es;
    handed = handed_over m.device_mac es;
  }

  -- Only the addressee does something.
  one_acts :
      (done : List Station) → Lacks f.to (macs done) → all_hear f (done ++ s ∷ rest) ≡ after done
  unfolding all_hear
  one_acts [] h =
      rw (heard f s m es to_s t, deaf f rest u apart)
        (ap₂ (λ a b. record { stations = record s { mesh = m } ∷ rest; air = a; handed = b })
          (append-nil (on_air s.env m.device_mac es)) (append-nil (handed_over m.device_mac es)))
  one_acts (d ∷ done) (e, h) = rw (deaf_one d e, one_acts done h) refl
    where
      deaf_one :
          (d : Station)
          → bytes_eq f.to d.mesh.device_mac ≡ false
          → one_hears f d ≡ record { stations = d ∷ []; air = []; handed = [] }
      deaf_one d e = unfold one_hears in rw (e, u) refl

  -- The round that hands a single frame in the air to its addressee.
  run_one :
      (n : ℕ) (done : List Station) (handed : List (Mac × MeshMessage))
      → Lacks f.to (macs done)
      → run (suc n) (record { stations = done ++ s ∷ rest; air = f ∷ []; handed = handed })
        ≡ run n (record (after done) { handed = handed ++ handed_over m.device_mac es })
  unfolding run
  run_one n done handed h =
      ap
        (λ (k : Net).
          run n (record { stations = k.stations; air = k.air; handed = handed ++ k.handed }))
        (one_acts done h)

abbrev pub head_mac : List Station → Station → Mac
head_mac [] last = last.mesh.device_mac
head_mac (s ∷ ss) last = s.mesh.device_mac

abbrev pub last_mac : Mac → List Station → Mac
last_mac mac [] = mac
last_mac mac (s ∷ ss) = last_mac s.mesh.device_mac ss

-- The nodes have routes one to the next, and none has seen the message.
abbrev pub IsPath : Mac → MeshMessage → List Station → Station → Type 0
IsPath master msg [] last = IsGateway master msg last × (seen last.mesh.replay.entries msg ≡ false)
IsPath master msg (s ∷ ss) last =
    HasRoute master (head_mac ss last) s
    × (seen s.mesh.replay.entries msg ≡ false)
    × IsPath master msg ss last

-- The addresses are those of single nodes, and no two are the same.
abbrev pub AreApart : List Mac → List Mac → Type 0
AreApart done [] = Unit {0}
AreApart done (x ∷ xs) =
    (bytes_eq x broadcast_mac ≡ false) × Lacks x done × Lacks x xs × AreApart (done ++ x ∷ []) xs

-- The message behind some hops.
abbrev pub carried : MeshMessage → ℕ → Mac → MeshMessage
carried msg hops mac = record msg { hop_count = hops; last_hop = mac }

carried-IsReading :
    (master : Mac) (msg : MeshMessage) (k : ℕ) (l : Mac)
    → IsReading master msg
    → IsReading master (carried msg k l)
carried-IsReading master msg k l r = record {
  version = r.version;
  epoch = r.epoch;
  kind = r.kind;
  target = r.target;
  unicast = r.unicast;
}

carried_fresh :
    (s : Station) (msg : MeshMessage) (k : ℕ) (l : Mac)
    → seen s.mesh.replay.entries msg ≡ false
    → seen s.mesh.replay.entries (carried msg k l) ≡ false
carried_fresh s msg k l h =
    seen-congr s.mesh.replay.entries (carried msg k l) msg (refl, refl, refl) ∙ h

abbrev pub Ends : Mac → MeshMessage → List (Mac × MeshMessage) → Net → Type 0
Ends master msg handed n = (n.air ≡ []) × (n.handed ≡ handed ++ (master, msg) ∷ [])

pub sent_one :
    (env : Env) (device to : Mac) (msg : MeshMessage)
    → env.send_ok to msg ≡ true
    → on_air env device (sends to msg ∷ []) ≡ record { src = device; to = to; msg = msg } ∷ []
unfolding on_air
sent_one env device to msg h = rw h refl

module _ (master : Mac) (msg : MeshMessage) (r : IsReading master msg) where
  -- The last hop.
  reaches :
      (last : Station) (done : List Station) (src : Mac) (k : ℕ) (l : Mac)
      (handed : List (Mac × MeshMessage))
      → IsPath master msg [] last
      → AreApart (macs done) (last.mesh.device_mac ∷ [])
      → Ends master (carried msg k l) handed (
          run 1 (record {
            stations = done ++ last ∷ [];
            air = record { src = src; to = last.mesh.device_mac; msg = carried msg k l } ∷ [];
            handed = handed;
          }))
  unfolding run on_air handed_over
  reaches last done src k l handed (g, fresh) (u, a, b, c) =
      let f : Frame = record { src = src; to = last.mesh.device_mac; msg = carried msg k l } in
      let g' : IsGateway master f.msg last = record {
        idle = g.idle;
        is_master = g.is_master;
        device = g.device;
        linked = g.linked;
        accepted = g.accepted;
      } in
      let (t, dev) =
        master_hears master last f (carried-IsReading master msg k l r) g'
          (carried_fresh last msg k l fresh) in
      let m = behind last f in
      let self = bytes_eq_self last.mesh.device_mac in
      subst (Ends master f.msg handed)
        (sym (run_one f u last m (delivers f.msg ∷ []) self t [] tt 0 done handed a))
        (refl, ap (λ d. handed ++ (d, f.msg) ∷ []) (dev ∙ g.device))

  pub passes :
      (relays : List Station) (last : Station) (done : List Station) (src : Mac) (k : ℕ) (l : Mac)
      (handed : List (Mac × MeshMessage))
      → IsPath master msg relays last
      → AreApart (macs done) (macs (relays ++ last ∷ []))
      → k + length relays ≤ 10
      → Ends master (carried msg (k + length relays) (last_mac l relays)) handed (
          run (suc (length relays)) (record {
            stations = done ++ (relays ++ last ∷ []);
            air = record { src = src; to = head_mac relays last; msg = carried msg k l } ∷ [];
            handed = handed;
          }))
  unfolding handed_over
  passes [] last done src k l handed path apart near =
      let here = reaches last done src k l handed path apart in
      (here.0, here.1 ∙ ap (λ n. handed ++ (master, carried msg n l) ∷ []) (omega arith))
  passes (s ∷ ss) last done src k l handed (h, fresh, path) (u, a, b, c) near =
      let f : Frame = record { src = src; to = s.mesh.device_mac; msg = carried msg k l } in
      let next = head_mac ss last in
      let (t, dev) =
        relay_hears master next s f (carried-IsReading master msg k l r) h
          (carried_fresh s msg k l fresh) (omega arith) in
      let m = behind s f in
      let s' = record s { mesh = m } in
      let rest = ss ++ last ∷ [] in
      let out = carried msg (k + 1) s.mesh.device_mac in
      let air = sent_one s.env m.device_mac next out (h.radio next out) in
      let self = bytes_eq_self s.mesh.device_mac in
      let first =
        run_one f u s m (sends next out ∷ []) self t rest b (suc (length ss)) done handed a in
      let same : macs (done ++ s' ∷ []) ≡ macs done ++ s.mesh.device_mac ∷ [] =
        macs-append done (s' ∷ []) ∙ ap (λ d. macs done ++ d ∷ []) dev in
      let later =
        passes ss last (done ++ s' ∷ []) m.device_mac (k + 1) s.mesh.device_mac handed path
          (subst (λ ms. AreApart ms (macs rest)) (sym same) c) (omega arith) in
      let joined : done ++ s' ∷ rest ≡ (done ++ s' ∷ []) ++ rest =
        sym (append_assoc done (s' ∷ []) rest) in
      let all =
        first
        ∙ ap₂
            (λ xs fs.
              run (suc (length ss)) (record { stations = xs; air = fs; handed = handed ++ [] }))
            joined air
        ∙ ap
            (λ hs. run (suc (length ss)) (record {
              stations = (done ++ s' ∷ []) ++ rest;
              air = record { src = m.device_mac; to = next; msg = out } ∷ [];
              handed = hs;
            }))
            (append-nil handed) in
      (
        ap (λ (n : Net). n.air) all ∙ later.0,
        ap (λ (n : Net). n.handed) all
            ∙ later.1
            ∙ ap (λ n. handed ++ (master, carried msg n (last_mac s.mesh.device_mac ss)) ∷ [])
                (omega arith),
      )
