-- ===== src/Mesh/Queue.antt =====
-- The receive ring as the queue of the entries between its tail and its head.
use planetopia_nodes.Shared.{
  ℕ, zero, suc, ◌+◌, ◌-◌, ◌%◌, ◌≤◌, ◌<◌, ◌≡◌, refl, ap, ap₂, ◌∙◌, ◌≢◌, inl, inr, ◌&&◌, Option, none,
  some, List, [], ◌∷◌, ◌++◌, arith, ltb, leb, ◌==◌, if◌then◌else◌, ==_iff, Bool-cases, length, set,
  get_or, length-set, get_or-set_self, get_or-set_ne,
}
use planetopia_nodes.Mesh.Types.{Mac, MeshMessage, RecvQueueEntry, RecvQueue, empty_slot}
use planetopia_nodes.Mesh.Receive.{on_data_recv, take_entry}

pub record IsValid (q : RecvQueue) : Type 0 where
  pub size : length q.slots ≡ 8
  pub head_in : q.head < 8
  pub tail_in : q.tail < 8

-- The n entries from slot t on, going round at 8.
abbrev pub window : List RecvQueueEntry → ℕ → ℕ → List RecvQueueEntry
window s t zero = []
window s t (suc n) = get_or s t empty_slot ∷ window s ((t + 1) % 8) n

abbrev pub count : RecvQueue → ℕ
count q = (q.head + 8 - q.tail) % 8

abbrev pub contents : RecvQueue → List RecvQueueEntry
contents q = window q.slots q.tail (count q)

pub window-suc :
    (s : List RecvQueueEntry) (t n : ℕ)
    → t < 8
    → window s t (suc n) ≡ window s t n ++ (get_or s ((t + n) % 8) empty_slot ∷ [])
window-suc s t zero h = ap (λ k. get_or s k empty_slot ∷ []) (omega arith)
window-suc s t (suc n) h =
    ap (λ l. get_or s t empty_slot ∷ l)
      (window-suc s ((t + 1) % 8) n (omega arith)
        ∙ ap (λ k. window s ((t + 1) % 8) n ++ (get_or s k empty_slot ∷ [])) (omega arith))

-- A write past the window leaves the window alone.
pub window-set :
    (s : List RecvQueueEntry) (t n m j : ℕ) (e : RecvQueueEntry)
    → t < 8
    → n ≤ m
    → m < 8
    → j ≡ (t + m) % 8
    → window (set s j e) t n ≡ window s t n
window-set s t zero m j e h₁ h₂ h₃ h₄ = refl
window-set s t (suc n) zero j e h₁ h₂ h₃ h₄ = absurd (omega arith)
window-set s t (suc n) (suc m) j e h₁ h₂ h₃ h₄ =
    ap₂ (λ a l. a ∷ l) (get_or-set_ne s j t e empty_slot (omega arith))
      (window-set s ((t + 1) % 8) n m j e (omega arith) (omega arith) (omega arith) (omega arith))

pub length-window : (s : List RecvQueueEntry) (t n : ℕ) → length (window s t n) ≡ n
length-window s t zero = refl
length-window s t (suc n) = ap suc (length-window s ((t + 1) % 8) n)

-- A write at the head that is then published appends one entry to the window.
pub window-publish :
    (q : RecvQueue) (e : RecvQueueEntry)
    → IsValid q
    → (q.head + 1) % 8 ≢ q.tail
    → window (set q.slots q.head e) q.tail (((q.head + 1) % 8 + 8 - q.tail) % 8)
      ≡ contents q ++ (e ∷ [])
window-publish q e v room =
    ap (window (set q.slots q.head e) q.tail) {y = suc (count q)}
      (omega (arith, v.head_in, v.tail_in))
    ∙ window-suc (set q.slots q.head e) q.tail (count q) v.tail_in
    ∙ ap₂ (λ l a. l ++ (a ∷ []))
        (window-set q.slots q.tail (count q) (count q) q.head e v.tail_in (omega arith)
          (omega arith) (omega (arith, v.head_in, v.tail_in)))
        (ap (λ k. get_or (set q.slots q.head e) k empty_slot) (omega (arith, v.head_in, v.tail_in))
          ∙ get_or-set_self q.slots q.head e empty_slot (omega (arith, v.size, v.head_in)))

-- In a valid ring a frame of full size goes to the end of the queue if fewer than 7 entries wait; else,
-- and if it is short, it is dropped and the queue stays as it was.
contents-on_data_recv :
    (q : RecvQueue) (src : Mac) (msg : MeshMessage) (len : ℕ)
    → IsValid q
    → contents (on_data_recv q src msg len) ≡ (
        if leb 127 len && ltb (length (contents q)) 7
        then contents q ++ (record { src_mac = src; msg = msg } ∷ [])
        else contents q)
unfolding on_data_recv
contents-on_data_recv q src msg len v =
    let e : RecvQueueEntry = record { src_mac = src; msg = msg } in
    ground
      (arith, v.head_in, v.tail_in, length-window q.slots q.tail (count q), window-publish q e v)

window-step :
    (s : List RecvQueueEntry) (t n : ℕ)
    → 0 < n
    → window s t n ≡ get_or s t empty_slot ∷ window s ((t + 1) % 8) (n - 1)
window-step s t zero h = absurd (omega arith)
window-step s t (suc n) h = ap (λ k. get_or s t empty_slot ∷ window s ((t + 1) % 8) k) (omega arith)

-- What may be handed out of q: nothing if it is empty, else its oldest entry with the rest.
abbrev pub Takes : RecvQueue → Option (RecvQueueEntry × RecvQueue) → Type 0
Takes q none = contents q ≡ []
Takes q (some (e, q')) = (contents q ≡ e ∷ contents q') × IsValid q'

-- What take_entry hands out of a valid ring is the oldest entry, and the rest stays as a valid ring; it
-- hands out nothing only from the empty queue.
pub contents-take_entry : (q : RecvQueue) → IsValid q → Takes q (take_entry q)
unfolding take_entry
contents-take_entry q v = elim (Bool-cases (q.tail == q.head)) [
  | inl e ↦ rw e (
      ap (window q.slots q.tail) {y = 0}
        (omega (arith, (==_iff q.tail q.head).0 e, v.head_in, v.tail_in)))
  | inr e ↦ rw e (
      let ne : q.tail ≢ q.head = ground arith in
      (
        window-step q.slots q.tail (count q) (omega (arith, v.head_in, v.tail_in))
            ∙ ap (λ k. get_or q.slots q.tail empty_slot ∷ window q.slots ((q.tail + 1) % 8) k)
                (omega (arith, v.head_in, v.tail_in)),
        record { size = v.size; head_in = v.head_in; tail_in = omega arith },
      ))
]

pub on_data_recv-IsValid :
    (q : RecvQueue) (src : Mac) (msg : MeshMessage) (len : ℕ)
    → IsValid q
    → IsValid (on_data_recv q src msg len)
unfolding on_data_recv
on_data_recv-IsValid q src msg len v =
    ground (arith, length-set q.slots q.head (record { src_mac = src; msg = msg }))

-- For its two users a valid ring is a queue of at most seven entries: the callback appends a frame of
-- full size if fewer than seven wait, and else drops it, and the ring stays valid; the main loop takes
-- the oldest entry and leaves the others as a valid ring, or nothing if none waits.
pub ring_refines_queue :
    (q : RecvQueue) (src : Mac) (msg : MeshMessage) (len : ℕ)
    → IsValid q
    → let q' = on_data_recv q src msg len in
      IsValid q'
      × (contents q' ≡ (
          if leb 127 len && ltb (length (contents q)) 7
          then contents q ++ (record { src_mac = src; msg = msg } ∷ [])
          else contents q))
      × Takes q (take_entry q)
ring_refines_queue q src msg len v = (
  on_data_recv-IsValid q src msg len v,
  contents-on_data_recv q src msg len v,
  contents-take_entry q v,
)
