-- ===== src/Net/Hearing.antt =====
-- A node at rest that hears a frame: the ring holds that frame only, and is empty again behind it.
use planetopia_nodes.Shared.{
  ℕ, zero, suc, ◌+◌, ◌%◌, ◌≡◌, refl, sym, ap, subst, ◌∙◌, none, some, List, [], arith, set,
  length-set, get_or-set_self,
}
use mathlib.Core.List.{append-nil}
use planetopia_nodes.Mesh.Types.{RecvQueueEntry, RecvQueue, Mesh, Effect, Env, empty_slot}
use planetopia_nodes.Mesh.Receive.{message_size, on_data_recv, take_entry}
use planetopia_nodes.Mesh.Queue.{IsValid}
use planetopia_nodes.Mesh.Loop.{process_entry, drain_recv_queue}
use planetopia_nodes.Mesh.Draining.{queue-process_entry}
use planetopia_nodes.Net.Air.{Frame, Station, take_in}

-- Nothing waits in a valid ring.
pub record IsIdle (q : RecvQueue) : Type 0 where
  pub valid : IsValid q
  pub empty : q.tail ≡ q.head

abbrev pub entry_of : Frame → RecvQueueEntry
entry_of f = record { src_mac = f.src; msg = f.msg }

-- The ring behind the frame.
abbrev pub passed : RecvQueue → Frame → RecvQueue
passed q f = record {
  slots = set q.slots q.head (entry_of f);
  head = (q.head + 1) % 8;
  tail = (q.head + 1) % 8;
}

abbrev pub handle : Station → Frame → Mesh × List Effect
handle s f =
    let m = s.mesh in process_entry s.env (record m { queue = passed m.queue f }) (entry_of f)

passed-IsIdle : (q : RecvQueue) (f : Frame) → IsIdle q → IsIdle (passed q f)
passed-IsIdle q f i = record {
  valid = record {
    size = length-set q.slots q.head (entry_of f) ∙ i.valid.size;
    head_in = omega arith;
    tail_in = omega arith;
  };
  empty = refl;
}

taken :
    (q : RecvQueue) (f : Frame)
    → IsIdle q
    → take_entry (on_data_recv q f.src f.msg message_size) ≡ some (entry_of f, passed q f)
unfolding take_entry on_data_recv
taken q f i = ground (
  arith,
  i.valid.head_in,
  i.empty,
  get_or-set_self q.slots q.head (entry_of f) empty_slot
      (omega (arith, i.valid.size, i.valid.head_in)),
)

none_taken : (q : RecvQueue) → q.tail ≡ q.head → take_entry q ≡ none
unfolding take_entry
none_taken q e = ground (arith, e)

pub drained :
    (fuel : ℕ) (env : Env) (m : Mesh)
    → m.queue.tail ≡ m.queue.head
    → drain_recv_queue fuel env m ≡ (m, [])
unfolding drain_recv_queue
drained zero env m e = refl
drained (suc fuel) env m e = rw (none_taken m.queue e, drain_recv_queue) refl

-- The first round of drainRecvQueue on a ring with one entry.
drained_one :
    (fuel : ℕ) (env : Env) (m : Mesh) (e : RecvQueueEntry) (q : RecvQueue)
    → take_entry m.queue ≡ some (e, q)
    → q.tail ≡ q.head
    → drain_recv_queue (suc fuel) env m ≡ process_entry env (record m { queue = q }) e
unfolding drain_recv_queue
drained_one fuel env m e q t i =
    let (m₁, es₁) = process_entry env (record m { queue = q }) e in
    let k : m₁.queue ≡ q = queue-process_entry env (record m { queue = q }) e in
    let last =
      drained fuel env m₁
        (ap (λ (r : RecvQueue). r.tail) k ∙ i ∙ sym (ap (λ (r : RecvQueue). r.head) k)) in
    rw (t, drain_recv_queue) (rw last (ap (λ es. (m₁, es)) (append-nil es₁)))

pub take_in-handle : (s : Station) (f : Frame) → IsIdle s.mesh.queue → take_in s f ≡ handle s f
unfolding take_in
take_in-handle s f i =
    let m = s.mesh in
    drained_one 7 s.env (record m { queue = on_data_recv m.queue f.src f.msg message_size })
      (entry_of f) (passed m.queue f) (taken m.queue f i) refl

pub handle-IsIdle : (s : Station) (f : Frame) → IsIdle s.mesh.queue → IsIdle (handle s f).0.queue
handle-IsIdle s f i =
    let m = s.mesh in
    subst IsIdle
      (sym (queue-process_entry s.env (record m { queue = passed m.queue f }) (entry_of f)))
      (passed-IsIdle m.queue f i)
