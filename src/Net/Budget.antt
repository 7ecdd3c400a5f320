-- ===== src/Net/Budget.antt =====
-- How many frames can follow one frame, where each may be copied to k others up to the hop limit.
use planetopia_nodes.Shared.{
  ℕ, zero, suc, ◌+◌, ◌-◌, ◌*◌, ◌≤◌, ◌<◌, ◌≡◌, refl, sym, ap, ◌∙◌, inl, inr, Bool, true, false, List,
  [], ◌∷◌, ◌++◌, arith, ltb, if◌then◌else◌, ltb→lt, Bool-cases, length,
}
use planetopia_nodes.Mesh.Types.{
  Mac, MeshMessage, Effect, sends, fails, delivers, relays_enrollment, Env,
}
use native.Mathlib.Nat.{mul-le-mul_right}
use planetopia_nodes.Mesh.Hops.{sent}
use planetopia_nodes.Net.Air.{Frame, on_air}
use planetopia_nodes.Net.Spread.{AreNext, IsSpread}

-- The copies of a frame over n more hops.
unfoldable pub copies : ℕ → ℕ → ℕ
copies k zero = 0
copies k (suc n) = k * (1 + copies k n)

-- A frame and all its copies.
abbrev pub frame_weight : ℕ → MeshMessage → ℕ
frame_weight k msg = 1 + copies k (10 - msg.hop_count)

-- The frames of the air with their copies.
unfoldable pub weight : ℕ → List Frame → ℕ
weight k [] = 0
weight k (f ∷ fs) = frame_weight k f.msg + weight k fs

pub weight-append : (k : ℕ) (fs gs : List Frame) → weight k (fs ++ gs) ≡ weight k fs + weight k gs
unfolding weight
weight-append k [] gs = omega arith
weight-append k (f ∷ fs) gs = omega (arith, weight-append k fs gs)

-- The copies that one of k receivers makes.
unfoldable pub share : ℕ → ℕ → ℕ
share k zero = 0
share k (suc n) = 1 + copies k n

pub copies-share : (k n : ℕ) → copies k n ≡ k * share k n
unfolding copies share
copies-share k zero = omega arith
copies-share k (suc n) = refl

share-suc : (k n : ℕ) → share k (suc n) ≡ 1 + copies k n
unfolding share
share-suc k n = refl

share_near :
    (k h : ℕ) (msg : MeshMessage)
    → h < 10
    → msg.hop_count ≡ h + 1
    → frame_weight k msg ≡ share k (10 - h)
share_near k h msg near e =
    let next : 10 - h ≡ suc (10 - (h + 1)) = omega arith in
    ap (λ n. 1 + copies k (10 - n)) e ∙ sym (ap (share k) next ∙ share-suc k (10 - (h + 1)))

-- The frames that a node puts on the air are among those that it sends.
on_air-AreNext :
    (k h : ℕ) (env : Env) (d : Mac) (es : List Effect)
    → h < 10
    → AreNext h (sent es)
    → weight k (on_air env d es) ≤ length (sent es) * share k (10 - h)
unfolding weight on_air sent
on_air-AreNext k h env d [] near a = omega arith
on_air-AreNext k h env d (sends to msg ∷ es) near (e, a) = omega (
  arith,
  on_air-AreNext k h env d es near a,
  share_near k h msg near e,
  weighed (env.send_ok to msg),
)
  where
    weighed :
        (b : Bool)
        → weight k (
            if b then record { src = d; to = to; msg = msg } ∷ on_air env d es else on_air env d es)
          ≤ frame_weight k msg + weight k (on_air env d es)
    weighed true = omega arith
    weighed false = omega arith
on_air-AreNext k h env d (fails f ∷ es) near a = on_air-AreNext k h env d es near a
on_air-AreNext k h env d (delivers msg ∷ es) near a = on_air-AreNext k h env d es near a
on_air-AreNext k h env d (relays_enrollment mac key ∷ es) near a =
    on_air-AreNext k h env d es near a

silent : (env : Env) (d : Mac) (fs : List Effect) → sent fs ≡ [] → on_air env d fs ≡ []
unfolding sent on_air
silent env d [] e = refl
silent env d (sends to msg ∷ fs) e = absurd (cc)
silent env d (fails f ∷ fs) e = silent env d fs e
silent env d (delivers msg ∷ fs) e = silent env d fs e
silent env d (relays_enrollment mac key ∷ fs) e = silent env d fs e

pub weight_cons :
    (k : ℕ) (f : Frame) (fs : List Frame)
    → weight k (f ∷ fs) ≡ 1 + copies k (10 - f.msg.hop_count) + weight k fs
unfolding weight
weight_cons k f fs = refl

weight_nil : (k : ℕ) → weight k [] ≡ 0
unfolding weight
weight_nil k = refl

-- What a node puts on the air behind a frame of h hops.
pub on_air-IsSpread :
    (k h : ℕ) (env : Env) (d : Mac) (es : List Effect)
    → IsSpread h 10 (sent es)
    → weight k (on_air env d es) ≤ 10 * share k (10 - h)
on_air-IsSpread k h env d es s = elim (Bool-cases (ltb h 10)) [
  | inl near ↦
      let few = mul-le-mul_right (share k (10 - h)) s.few in
      let all = on_air-AreNext k h env d es (ltb→lt h 10 near) s.next in omega (arith, few, all)
  | inr far ↦ omega (arith, ap (weight k) (silent env d es (s.stops (ground arith))), weight_nil k)
]
