-- ===== src/Net/Flood.antt =====
-- What the nodes make of the frames of the air, whichever frame comes next and whoever hears it.
use planetopia_nodes.Shared.{
  ℕ, suc, ◌+◌, ◌-◌, ◌*◌, ◌≤◌, ◌≡◌, refl, ap, subst, ◌∙◌, inl, inr, Option, none, some, List, [],
  ◌∷◌, ◌++◌, arith, Bool-cases, length, length-append,
}
use planetopia_nodes.Mesh.Types.{Env}
use planetopia_nodes.Net.Air.{Frame, Station, Net, on_air, handed_over, hears, one_hears, beside}
use planetopia_nodes.Net.Hearing.{take_in-handle, handle}
use planetopia_nodes.Net.Spread.{process_entry-IsSpread}
use planetopia_nodes.Net.Calm.{IsCalm, handle-IsCalm}
use planetopia_nodes.Net.Budget.{
  weight, weight_cons, share, copies-share, weight-append, on_air-IsSpread,
}

-- A node at one frame: `none` where the radio loses the frame, or the clock, the radio and the random
-- numbers of the moment at which the node hears it.
unfoldable pub at_one : Option Env → Frame → Station → Net
at_one none f s = record { stations = s ∷ []; air = []; handed = [] }
at_one (some env) f s = one_hears f (record s { env = env })

-- The nodes at one frame; those that the list does not reach do not hear it.
unfoldable pub some_hear : List (Option Env) → Frame → List Station → Net
some_hear vs f [] = record { stations = []; air = []; handed = [] }
some_hear [] f (s ∷ ss) = beside (at_one none f s) (some_hear [] f ss)
some_hear (v ∷ vs) f (s ∷ ss) = beside (at_one v f s) (some_hear vs f ss)

-- The net behind the frame between `before` and `after`.
abbrev pub behind_frame : Net → List (Option Env) → List Frame → Frame → List Frame → Net
behind_frame n vs before f after =
    let h = some_hear vs f n.stations in
    record {
      stations = h.stations;
      air = (before ++ after) ++ h.air;
      handed = n.handed ++ h.handed;
    }

-- Any frame of the air comes next.
pub data Step (n : Net) : Net → Type 0 where
  heard :
      (vs : List (Option Env)) (before : List Frame) (f : Frame) (after : List Frame)
      → n.air ≡ before ++ f ∷ after
      → Step n (behind_frame n vs before f after)

pub data Runs (n : Net) : Net → Type 0 where
  stays : Runs n n
  goes : {m o : Net} → Runs n m → Step m o → Runs n o

unfoldable pub steps : {n m : Net} → Runs n m → ℕ
steps stays = 0
steps (goes r s) = steps r + 1

abbrev pub AreCalm : List Station → Type 0
AreCalm [] = Unit {0}
AreCalm (s ∷ ss) = IsCalm s.mesh × AreCalm ss

-- What a frame leaves: as many calm nodes, and no more copies than the nodes may make.
record IsShare (k h count : ℕ) (n : Net) : Type 0 where
  calm : AreCalm n.stations
  size : length n.stations ≡ count
  few : weight k n.air ≤ count * (10 * share k (10 - h))

still :
    (k : ℕ) (f : Frame) (s : Station)
    → IsCalm s.mesh
    → IsShare k f.msg.hop_count 1 (record { stations = s ∷ []; air = []; handed = [] })
unfolding weight
still k f s c = record { calm = (c, tt); size = refl; few = omega arith }

handled-IsShare :
    (k : ℕ) (f : Frame) (s : Station)
    → IsCalm s.mesh
    → IsShare k f.msg.hop_count 1 (record {
      stations = record s { mesh = (handle s f).0 } ∷ [];
      air = on_air s.env (handle s f).0.device_mac (handle s f).1;
      handed = handed_over (handle s f).0.device_mac (handle s f).1;
    })
handled-IsShare k f s c = record {
  calm = (handle-IsCalm s f c, tt);
  size = refl;
  few = omega (
    arith,
    on_air-IsSpread k f.msg.hop_count s.env (handle s f).0.device_mac (handle s f).1
        (process_entry-IsSpread s.env _ _ c.few_peers),
  );
}

heard-IsShare :
    (k : ℕ) (f : Frame) (s : Station) → IsCalm s.mesh → IsShare k f.msg.hop_count 1 (one_hears f s)
unfolding one_hears
heard-IsShare k f s c = elim (Bool-cases (hears f s)) [
  | inl near ↦ rw near (rw (take_in-handle s f c.idle) (handled-IsShare k f s c))
  | inr far ↦ rw far (still k f s c)
]

one-IsShare :
    (k : ℕ) (v : Option Env) (f : Frame) (s : Station)
    → IsCalm s.mesh
    → IsShare k f.msg.hop_count 1 (at_one v f s)
unfolding at_one
one-IsShare k none f s c = still k f s c
one-IsShare k (some env) f s c = heard-IsShare k f (record s { env = env }) c

calm-append : (xs ys : List Station) → AreCalm xs → AreCalm ys → AreCalm (xs ++ ys)
calm-append [] ys c d = d
calm-append (x ∷ xs) ys (c, cs) d = (c, calm-append xs ys cs d)

beside-IsShare :
    (k h count : ℕ) (a b : Net)
    → IsShare k h 1 a
    → IsShare k h count b
    → IsShare k h (suc count) (beside a b)
beside-IsShare k h count a b p q = record {
  calm = calm-append a.stations b.stations p.calm q.calm;
  size = length-append a.stations b.stations ∙ omega (arith, p.size, q.size);
  few = omega (arith, p.few, q.few, weight-append k a.air b.air);
}

some-IsShare :
    (k : ℕ) (vs : List (Option Env)) (f : Frame) (ss : List Station)
    → AreCalm ss
    → IsShare k f.msg.hop_count (length ss) (some_hear vs f ss)
unfolding some_hear weight
some-IsShare k vs f [] c = record { calm = tt; size = refl; few = omega arith }
some-IsShare k [] f (s ∷ ss) (c, cs) =
    beside-IsShare k _ (length ss) (at_one none f s) (some_hear [] f ss) (one-IsShare k none f s c)
      (some-IsShare k [] f ss cs)
some-IsShare k (v ∷ vs) f (s ∷ ss) (c, cs) =
    beside-IsShare k _ (length ss) (at_one v f s) (some_hear vs f ss) (one-IsShare k v f s c)
      (some-IsShare k vs f ss cs)

-- What a run leaves.
record IsSpent (k nodes : ℕ) (n m : Net) (count : ℕ) : Type 0 where
  calm : AreCalm m.stations
  size : length m.stations ≡ nodes
  bound : count + weight k m.air ≤ weight k n.air

-- A frame weighs one more than the copies that all nodes may make of it.
lighter :
    (count : ℕ) (n : Net) (vs : List (Option Env)) (before : List Frame) (f : Frame)
    (after : List Frame)
    → length n.stations ≡ count
    → AreCalm n.stations
    → n.air ≡ before ++ f ∷ after
    → IsSpent (10 * count) count n (behind_frame n vs before f after) 1
lighter count n vs before f after size c e =
    let k = 10 * count in
    let h =
      subst (λ l. IsShare k f.msg.hop_count l (some_hear vs f n.stations)) size
        (some-IsShare k vs f n.stations c) in
    let left = 10 - f.msg.hop_count in
    record {
      calm = h.calm;
      size = h.size;
      bound = omega (
        arith,
        h.few,
        copies-share k left,
        ap (weight k) e,
        weight-append k before (f ∷ after),
        weight-append k before after,
        weight-append k (before ++ after) (some_hear vs f n.stations).air,
        weight_cons k f after,
      );
    }

spent :
    (n m : Net) (r : Runs n m)
    → AreCalm n.stations
    → IsSpent (10 * length n.stations) (length n.stations) n m (steps r)
unfolding steps
spent n m stays c = record { calm = c; size = refl; bound = omega arith }
spent n m (goes {m = o} r (heard vs before f after e)) c =
    let s = spent n o r c in
    let l = lighter (length n.stations) o vs before f after s.size s.calm e in
    record { calm = l.calm; size = l.size; bound = omega (arith, s.bound, l.bound) }

-- A net of nodes at rest with at most ten peers each makes no more steps than its frames weigh: each
-- step takes one frame of the air, any of them; every node hears it or not, at any time, with any
-- radio and any random number; and what is left weighs so much less. A frame of h hops weighs 1 and
-- its copies over 10 - h hops, where each goes to ten peers of every node.
pub flood_dies_out :
    (n m : Net) (r : Runs n m)
    → AreCalm n.stations
    → steps r + weight (10 * length n.stations) m.air ≤ weight (10 * length n.stations) n.air
flood_dies_out n m r c = (spent n m r c).bound
