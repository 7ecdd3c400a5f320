-- ===== src/Mesh/ReplayLaws.antt =====
-- The replay cache over a sequence of messages.
use planetopia_nodes.Shared.{
  ℕ, zero, suc, ◌+◌, ◌%◌, ◌≤◌, ◌<◌, ◌≡◌, refl, ◌∙◌, ◌≢◌, ◌⊎◌, inl, inr, Bool, true, false, ◌&&◌,
  ◌||◌, List, [], ◌∷◌, arith, ◌==◌, Bool-cases, length, set, get_or, replicate, length-set,
  get_or-set_self, get_or-set_ne, bytes_eq, bytes_eq_self,
}
use planetopia_nodes.Mesh.Types.{MeshMessage, ReplayEntry, ReplayCache, zero_mac}
use planetopia_nodes.Mesh.Replay.{empty_cache, entry_of, matches, seen, remember, is_replay}

pub record IsValid (c : ReplayCache) : Type 0 where
  pub size : length c.entries ≡ 16
  pub in_range : c.idx < 16

-- The cache keeps its size, and its index stays inside it.
pub is_replay-IsValid :
    (c : ReplayCache) (msg : MeshMessage) → IsValid c → IsValid (is_replay c msg).1
unfolding is_replay remember
is_replay-IsValid c msg v = ground (arith, length-set c.entries c.idx (entry_of msg))

abbrev no_entry : ReplayEntry
no_entry = record { mac = []; epoch = 0; seq = 0 }

-- The entry stands at slot i.
abbrev HasAt : ReplayCache → ℕ → MeshMessage → Type 0
HasAt c i msg = get_or c.entries i no_entry ≡ entry_of msg

matches-entry_of : (msg : MeshMessage) → matches (entry_of msg) msg ≡ true
matches-entry_of msg = ground (arith, bytes_eq_self msg.origin)

seen_at :
    (es : List ReplayEntry) (i : ℕ) (msg : MeshMessage)
    → i < length es
    → get_or es i no_entry ≡ entry_of msg
    → seen es msg ≡ true
unfolding seen
seen_at [] i msg h e = absurd (omega arith)
seen_at (x ∷ es) zero msg h e = rw (e, matches-entry_of msg)
seen_at (x ∷ es) (suc i) msg h e = ground (arith, seen_at es i msg)

-- The cache after a sequence of messages.
unfoldable pub run : ReplayCache → List MeshMessage → ReplayCache
run c [] = c
run c (msg ∷ msgs) = run (is_replay c msg).1 msgs

-- Slot i holds the entry of x, and d more entries can be written before its turn comes.
record Holds (c : ReplayCache) (i d : ℕ) (x : MeshMessage) : Type 0 where
  valid : IsValid c
  slot : i ≡ (c.idx + d) % 16
  few : d < 16
  entry : HasAt c i x

remember-Holds :
    (c : ReplayCache) (i d : ℕ) (x msg : MeshMessage)
    → Holds c i (suc d) x
    → Holds (remember c msg) i d x
unfolding remember
remember-Holds c i d x msg h =
    let ne : c.idx ≢ i = omega (arith, h.slot, h.few, h.valid.in_range) in
    record {
      valid = ground (arith, h.valid.size, length-set c.entries c.idx (entry_of msg));
      slot = omega (arith, h.slot, h.few, h.valid.in_range);
      few = omega (arith, h.few);
      entry = get_or-set_ne c.entries c.idx i (entry_of msg) no_entry ne ∙ h.entry;
    }

remember_first : (c : ReplayCache) (x : MeshMessage) → IsValid c → Holds (remember c x) c.idx 15 x
unfolding remember
remember_first c x v = record {
  valid = ground (arith, v.size, length-set c.entries c.idx (entry_of x));
  slot = omega (arith, v.in_range);
  few = omega arith;
  entry = get_or-set_self c.entries c.idx (entry_of x) no_entry (omega (arith, v.size, v.in_range));
}

Holds-seen : (c : ReplayCache) (i d : ℕ) (x : MeshMessage) → Holds c i d x → seen c.entries x ≡ true
Holds-seen c i d x h = seen_at c.entries i x (omega (arith, h.valid.size, h.slot)) h.entry

run-Holds :
    (msgs : List MeshMessage) (c : ReplayCache) (i d : ℕ) (x : MeshMessage)
    → length msgs ≤ d
    → Holds c i d x
    → (d' : ℕ) × Holds (run c msgs) i d' x
unfolding run is_replay
run-Holds [] c i d x lt h = (d, h)
run-Holds (msg ∷ msgs) c i zero x lt h = absurd (omega arith)
run-Holds (msg ∷ msgs) c i (suc d) x lt h = elim (Bool-cases (seen c.entries msg)) [
  | inl e ↦ rw e (run-Holds msgs c i (suc d) x (omega arith) h)
  | inr e ↦
      rw e (run-Holds msgs (remember c msg) i d x (omega arith) (remember-Holds c i d x msg h))
]

-- A message that a valid cache has let through is rejected as a replay at every later arrival, as long as at
-- most 15 other messages have been checked since.
pub replay_window :
    (c : ReplayCache) (x : MeshMessage) (msgs : List MeshMessage)
    → IsValid c
    → (is_replay c x).0 ≡ false
    → length msgs ≤ 15
    → (is_replay (run (is_replay c x).1 msgs) x).0 ≡ true
unfolding is_replay
replay_window c x msgs v fresh few = elim (Bool-cases (seen c.entries x)) [
  | inl e ↦ ground arith
  | inr e ↦ rw e (
      let (d, h) = run-Holds msgs (remember c x) c.idx 15 x few (remember_first c x v) in
      ground (arith, Holds-seen _ c.idx d x h))
]

-- Some message of the list has the origin, the epoch and the sequence number of x.
unfoldable pub sent_before : List MeshMessage → MeshMessage → Bool
sent_before [] x = false
sent_before (msg ∷ msgs) x =
    (bytes_eq msg.origin x.origin && (msg.epoch_num == x.epoch_num) && (msg.seq_num == x.seq_num))
    || sent_before msgs x

seen-set :
    (es : List ReplayEntry) (i : ℕ) (e : ReplayEntry) (x : MeshMessage)
    → seen (set es i e) x ≡ true
    → (matches e x ≡ true) ⊎ (seen es x ≡ true)
unfolding seen
seen-set [] i e x h = inr h
seen-set (y ∷ es) zero e x h = ground arith
seen-set (y ∷ es) (suc i) e x h = ground (arith, seen-set es i e x)

seen-run :
    (msgs : List MeshMessage) (c : ReplayCache) (x : MeshMessage)
    → seen (run c msgs).entries x ≡ true
    → (sent_before msgs x ≡ true) ⊎ (seen c.entries x ≡ true)
unfolding run sent_before is_replay remember
seen-run [] c x h = inr h
seen-run (msg ∷ msgs) c x h = elim (Bool-cases (seen c.entries msg)) [
  | inl e ↦ ground (arith, seen-run msgs c x (rw (e, run) at h))
  | inr e ↦ ground (
    arith,
    seen-run msgs (remember c msg) x (rw (e, run) at h),
    seen-set c.entries c.idx (entry_of msg) x,
  )
]

zero_blind :
    (n : ℕ) (x : MeshMessage)
    → 0 < x.epoch_num
    → seen (replicate n (record { mac = zero_mac; epoch = 0; seq = 0 })) x ≡ false
unfolding seen
zero_blind zero x h = refl
zero_blind (suc n) x h = ground (arith, zero_blind n x)

-- From the empty cache, a message of a started node (its epoch is above 0) is rejected only if one
-- with its origin, epoch and sequence number was checked before.
pub no_false_replay :
    (msgs : List MeshMessage) (x : MeshMessage)
    → 0 < x.epoch_num
    → (is_replay (run empty_cache msgs) x).0 ≡ true
    → sent_before msgs x ≡ true
unfolding is_replay
no_false_replay msgs x h e = ground (arith, seen-run msgs empty_cache x, zero_blind 16 x h)
