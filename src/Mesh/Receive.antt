-- ===== src/Mesh/Receive.antt =====
-- The ring of received messages: the driver's callback fills it, the main loop takes from it.
use planetopia_nodes.Shared.{ℕ, ◌+◌, ◌%◌, Option, none, some, ltb, ◌==◌, if◌then◌else◌, set, get_or}
use planetopia_nodes.Mesh.Types.{Mac, MeshMessage, RecvQueueEntry, RecvQueue, empty_slot}

abbrev pub recv_queue_size : ℕ
recv_queue_size = 8

abbrev pub message_size : ℕ
message_size = 127

-- `onDataRecvCallback`, behind its null checks: `len` is the length of the received frame and `msg`
-- its first sizeof(mesh_message) bytes.
unfoldable pub on_data_recv : RecvQueue → Mac → MeshMessage → ℕ → RecvQueue
on_data_recv q src msg len =
    if ltb len message_size
    then q
    else let next_head = (q.head + 1) % recv_queue_size in
      if next_head == q.tail then q else record q {
        slots = set q.slots q.head (record { src_mac = src; msg = msg });
        head = next_head;
      }

-- The head of drainRecvQueue's loop: `none` where the ring is empty, else the entry at the tail and
-- the ring with the tail moved past it.
unfoldable pub take_entry : RecvQueue → Option (RecvQueueEntry × RecvQueue)
take_entry q =
    if q.tail == q.head
    then none
    else some (get_or q.slots q.tail empty_slot, record q { tail = (q.tail + 1) % recv_queue_size })
