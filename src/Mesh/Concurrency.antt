-- ===== src/Mesh/Concurrency.antt =====
-- What holds of the receive ring however its two tasks interleave, by an invariant of the steps.
use planetopia_nodes.Shared.{
  ℕ, suc, ◌+◌, ◌%◌, ◌≡◌, sym, ap, subst, ◌∙◌, ◌≢◌, some, [], ◌∷◌, ◌++◌, arith, set, get_or,
  length-set, get_or-set_self, get_or-set_ne,
}
use mathlib.Core.List.{append_assoc}
use planetopia_nodes.Mesh.Types.{RecvQueueEntry, RecvQueue, empty_slot}
use planetopia_nodes.Mesh.Queue.{
  IsValid, window, count, contents, Takes, window-set, window-suc, contents-take_entry,
}
use planetopia_nodes.Mesh.Receive.{take_entry}
use planetopia_nodes.Mesh.Interleaving.{
  Producer, waiting, checked, copied, Consumer, idle, handling, System, Step, check, copy, publish,
  takes, finish, Reach, here, next,
}

abbrev HasRoom : RecvQueue → Type 0
HasRoom q = (q.head + 1) % 8 ≢ q.tail

-- What the producer's place says of the ring.
abbrev ProducerOk : RecvQueue → Producer → Type 0
ProducerOk q waiting = Unit {0}
ProducerOk q (checked e) = HasRoom q
ProducerOk q (copied e) = HasRoom q × (get_or q.slots q.head empty_slot ≡ e)

-- The referenced slot is the one behind the tail, and holds the entry that was taken.
abbrev ConsumerOk : RecvQueue → Consumer → Type 0
ConsumerOk q idle = Unit {0}
ConsumerOk q (handling i e) = (i ≡ (q.tail + 7) % 8) × (get_or q.slots i empty_slot ≡ e)

record Inv (s : System) : Type 0 where
  valid : IsValid s.queue
  producing : ProducerOk s.queue s.producer
  consuming : ConsumerOk s.queue s.consumer
  history : s.accepted ≡ s.handled ++ contents s.queue

contents-publish :
    (q : RecvQueue) (e : RecvQueueEntry)
    → IsValid q
    → HasRoom q
    → get_or q.slots q.head empty_slot ≡ e
    → contents (record q { head = (q.head + 1) % 8 }) ≡ contents q ++ (e ∷ [])
contents-publish q e v room at =
    ap (window q.slots q.tail) {y = suc (count q)} (omega (arith, v.head_in, v.tail_in))
    ∙ window-suc q.slots q.tail (count q) v.tail_in
    ∙ ap (λ a. contents q ++ (a ∷ []))
        (ap (λ k. get_or q.slots k empty_slot) {y = q.head} (omega (arith, v.head_in, v.tail_in))
          ∙ at)

take_entry-eq :
    (q q' : RecvQueue) (e : RecvQueueEntry)
    → take_entry q ≡ some (e, q')
    → (q.tail ≢ q.head)
      × (get_or q.slots q.tail empty_slot ≡ e)
      × (q' ≡ record q { tail = (q.tail + 1) % 8 })
unfolding take_entry
take_entry-eq q q' e h = (ground arith, ground arith, ground arith)

copy-ConsumerOk :
    (q : RecvQueue) (e : RecvQueueEntry) (c : Consumer)
    → IsValid q
    → HasRoom q
    → ConsumerOk q c
    → ConsumerOk (record q { slots = set q.slots q.head e }) c
copy-ConsumerOk q e idle v room h = tt
copy-ConsumerOk q e (handling i f) v room h = (
  h.0,
  get_or-set_ne q.slots q.head i e empty_slot (omega (arith, h.0, v.tail_in, v.head_in)) ∙ h.1,
)

publish-ConsumerOk :
    (q : RecvQueue) (n : ℕ) (c : Consumer) → ConsumerOk q c → ConsumerOk (record q { head = n }) c
publish-ConsumerOk q n idle h = tt
publish-ConsumerOk q n (handling i f) h = h

takes-ProducerOk :
    (q : RecvQueue) (p : Producer)
    → IsValid q
    → q.tail ≢ q.head
    → ProducerOk q p
    → ProducerOk (record q { tail = (q.tail + 1) % 8 }) p
takes-ProducerOk q waiting v ne h = tt
takes-ProducerOk q (checked e) v ne h = omega (arith, v.head_in, v.tail_in)
takes-ProducerOk q (copied e) v ne h = (omega (arith, v.head_in, v.tail_in, h.0), h.1)

-- A producer place that is known by an equation.
at_place : (q : RecvQueue) (p r : Producer) → p ≡ r → ProducerOk q p → ProducerOk q r
at_place q p r e h = subst (ProducerOk q) e h

copy-Inv :
    (s : System) (e : RecvQueueEntry) (q : RecvQueue)
    → s.producer ≡ checked e
    → q ≡ (let r = s.queue in record r { slots = set r.slots r.head e })
    → Inv s
    → Inv (record s { queue = q; producer = copied e })
copy-Inv s e q at eq v =
    let r = s.queue in
    let room = at_place r s.producer (checked e) at v.producing in
    subst (λ q. Inv (record s { queue = q; producer = copied e })) (sym eq)
      (record {
        valid = record {
          size = length-set r.slots r.head e ∙ v.valid.size;
          head_in = v.valid.head_in;
          tail_in = v.valid.tail_in;
        };
        producing = (
          room,
          get_or-set_self r.slots r.head e empty_slot
              (omega (arith, v.valid.size, v.valid.head_in)),
        );
        consuming = copy-ConsumerOk r e s.consumer v.valid room v.consuming;
        history =
            v.history
            ∙ ap (λ l. s.handled ++ l)
                (sym (
                  window-set r.slots r.tail (count r) (count r) r.head e v.valid.tail_in
                    (omega arith) (omega arith) (omega (arith, v.valid.head_in, v.valid.tail_in))));
      })

publish-Inv :
    (s : System) (e : RecvQueueEntry) (q : RecvQueue)
    → s.producer ≡ copied e
    → q ≡ (let r = s.queue in record r { head = (r.head + 1) % 8 })
    → Inv s
    → Inv (record s { queue = q; producer = waiting; accepted = s.accepted ++ (e ∷ []) })
publish-Inv s e q at eq v =
    let r = s.queue in
    let filled = at_place r s.producer (copied e) at v.producing in
    subst (λ q. Inv (record s { queue = q; producer = waiting; accepted = s.accepted ++ (e ∷ []) }))
      (sym eq)
      (record {
        valid = record { size = v.valid.size; head_in = omega arith; tail_in = v.valid.tail_in };
        producing = tt;
        consuming = publish-ConsumerOk r ((r.head + 1) % 8) s.consumer v.consuming;
        history =
            ap (λ l. l ++ (e ∷ [])) v.history
            ∙ append_assoc s.handled (contents r) (e ∷ [])
            ∙ ap (λ l. s.handled ++ l) (sym (contents-publish r e v.valid filled.0 filled.1));
      })

takes-Inv :
    (s : System) (e : RecvQueueEntry) (q : RecvQueue)
    → take_entry s.queue ≡ some (e, q)
    → Inv s
    → Inv (record s {
      queue = q;
      consumer = handling s.queue.tail e;
      handled = s.handled ++ (e ∷ []);
    })
takes-Inv s e q taken v =
    let r = s.queue in
    let (ne, held, eq) = take_entry-eq r q e taken in
    let (oldest, valid') : (contents r ≡ e ∷ contents q) × IsValid q =
      subst (Takes r) taken (contents-take_entry r v.valid) in
    record {
      valid = valid';
      producing =
          subst (λ q. ProducerOk q s.producer) (sym eq)
            (takes-ProducerOk r s.producer v.valid ne v.producing);
      consuming =
          subst (λ q. ConsumerOk q (handling r.tail e)) (sym eq)
            (omega (arith, v.valid.tail_in), held);
      history =
          v.history
          ∙ ap (λ l. s.handled ++ l) oldest
          ∙ sym (append_assoc s.handled (e ∷ []) (contents q));
    }

Step-Inv : {s t : System} → Step s t → Inv s → Inv t
Step-Inv (check e at room) v = record {
  valid = v.valid;
  producing = room;
  consuming = v.consuming;
  history = v.history;
}
Step-Inv {s} (copy e q at eq) v = copy-Inv s e q at eq v
Step-Inv {s} (publish e q at eq) v = publish-Inv s e q at eq v
Step-Inv {s} (takes e q at taken) v = takes-Inv s e q taken v
Step-Inv (finish i e at) v = record {
  valid = v.valid;
  producing = v.producing;
  consuming = tt;
  history = v.history;
}

Reach-Inv : {q : RecvQueue} {s : System} → IsValid q → contents q ≡ [] → Reach q s → Inv s
Reach-Inv v empty here = record { valid = v; producing = tt; consuming = tt; history = sym empty }
Reach-Inv v empty (next r st) = Step-Inv st (Reach-Inv v empty r)

-- From an empty valid ring, however the two tasks interleave, the entry that the main task is handling by
-- reference is never overwritten by the callback.
pub handled_entry_stable :
    {q : RecvQueue} {s : System} (i : ℕ) (e : RecvQueueEntry)
    → IsValid q
    → contents q ≡ []
    → Reach q s
    → s.consumer ≡ handling i e
    → get_or s.queue.slots i empty_slot ≡ e
handled_entry_stable {s = s} i e v empty r at =
    (subst (ConsumerOk s.queue) at (Reach-Inv v empty r).consuming).1

-- From an empty valid ring, however the two tasks interleave, the frames that the callback has accepted are,
-- in order, those that the main task has taken followed by those that wait in the ring.
pub accepted_handled :
    {q : RecvQueue} {s : System}
    → IsValid q
    → contents q ≡ []
    → Reach q s
    → s.accepted ≡ s.handled ++ contents s.queue
accepted_handled v empty r = (Reach-Inv v empty r).history
