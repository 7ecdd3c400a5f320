-- ===== src/Mesh/Interleaving.antt =====
-- The receive ring shared by two tasks. The Wi-Fi task runs onDataRecvCallback: it tests for room,
-- copies the frame into the slot at the head, and publishes the head. The main task runs
-- drainRecvQueue: it moves the tail past an entry, and then handles that entry by a reference into
-- the ring. The steps of the two interleave in any order.
use planetopia_nodes.Shared.{
  ℕ, ◌+◌, ◌%◌, ◌≤◌, ◌≡◌, refl, ◌≢◌, false, some, List, [], ◌∷◌, ◌++◌, arith, ltb, ◌==◌, set,
}
use planetopia_nodes.Mesh.Types.{Mac, MeshMessage, RecvQueueEntry, RecvQueue}
use planetopia_nodes.Mesh.Receive.{on_data_recv, take_entry}

-- Where the callback stands: outside, behind the test for room, or behind the copy.
pub data Producer : Type 0 where
  waiting : Producer
  checked : RecvQueueEntry → Producer
  copied : RecvQueueEntry → Producer

-- Where the main task stands: outside, or handling an entry through a reference to a slot.
pub data Consumer : Type 0 where
  idle : Consumer
  handling : ℕ → RecvQueueEntry → Consumer

-- `accepted` and `handled` only record, in order, the frames that were published and the entries
-- that were taken.
pub record System : Type 0 where
  pub queue : RecvQueue
  pub producer : Producer
  pub consumer : Consumer
  pub accepted : List RecvQueueEntry
  pub handled : List RecvQueueEntry

pub data Step (s : System) : System → Type 0 where
  check :
      (e : RecvQueueEntry)
      → s.producer ≡ waiting
      → (s.queue.head + 1) % 8 ≢ s.queue.tail
      → Step s (record s { producer = checked e })
  copy :
      (e : RecvQueueEntry) (q : RecvQueue)
      → s.producer ≡ checked e
      → q ≡ (let r = s.queue in record r { slots = set r.slots r.head e })
      → Step s (record s { queue = q; producer = copied e })
  publish :
      (e : RecvQueueEntry) (q : RecvQueue)
      → s.producer ≡ copied e
      → q ≡ (let r = s.queue in record r { head = (r.head + 1) % 8 })
      → Step s (record s { queue = q; producer = waiting; accepted = s.accepted ++ (e ∷ []) })
  takes :
      (e : RecvQueueEntry) (q : RecvQueue)
      → s.consumer ≡ idle
      → take_entry s.queue ≡ some (e, q)
      → Step s (record s {
        queue = q;
        consumer = handling s.queue.tail e;
        handled = s.handled ++ (e ∷ []);
      })
  finish :
      (i : ℕ) (e : RecvQueueEntry)
      → s.consumer ≡ handling i e
      → Step s (record s { consumer = idle })

abbrev pub start : RecvQueue → System
start q = record { queue = q; producer = waiting; consumer = idle; accepted = []; handled = [] }

pub data Reach (q : RecvQueue) : System → Type 0 where
  here : Reach q (start q)
  next : {s t : System} → Reach q s → Step s t → Reach q t

-- The three steps of the callback.
abbrev after_check : System → RecvQueueEntry → System
after_check s e = record s { producer = checked e }

abbrev after_copy : System → RecvQueueEntry → System
after_copy s e = record s {
  queue = (let r = s.queue in record r { slots = set r.slots r.head e });
  producer = copied e;
}

abbrev pub after_publish : System → RecvQueueEntry → System
after_publish s e = record s {
  queue = (let r = s.queue in record r { slots = set r.slots r.head e; head = (r.head + 1) % 8 });
  producer = waiting;
  accepted = s.accepted ++ (e ∷ []);
}

-- Run without a break, the steps of the callback are on_data_recv.
pub callback_in_steps :
    {q : RecvQueue} {s : System} (src : Mac) (msg : MeshMessage) (len : ℕ)
    → Reach q s
    → s.producer ≡ waiting
    → (s.queue.head + 1) % 8 ≢ s.queue.tail
    → 127 ≤ len
    → let e : RecvQueueEntry = record { src_mac = src; msg = msg } in
      Reach q (after_publish s e) × ((after_publish s e).queue ≡ on_data_recv s.queue src msg len)
unfolding on_data_recv
callback_in_steps {s = s} src msg len r w room long =
    let e : RecvQueueEntry = record { src_mac = src; msg = msg } in
    let fits : ltb len 127 ≡ false = ground arith in
    let free : ((s.queue.head + 1) % 8 == s.queue.tail) ≡ false = ground arith in
    (
      next (next (next r (check e w room)) (copy e (after_copy s e).queue refl refl))
          (publish e (after_publish s e).queue refl refl),
      rw (fits, free) refl,
    )
