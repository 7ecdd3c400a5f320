-- ===== src/Examples/Protocol.antt =====
-- Replay, the receive ring and enrollment at concrete inputs.
use planetopia_nodes.Shared.{
  ◌≡◌, refl, true, false, some, [], ◌∷◌, ◌++◌, arith, set, get_or, bytes_eq,
}
use planetopia_nodes.Mesh.Types.{RecvQueue, Mesh, empty_slot}
use planetopia_nodes.Mesh.Replay.{seen, empty_cache, is_replay}
use planetopia_nodes.Mesh.Receive.{on_data_recv, take_entry}
use planetopia_nodes.Mesh.Loop.{drain_recv_queue}
use planetopia_nodes.Mesh.Delivery.{process_adapter_data, enroll_peer}
use planetopia_nodes.Mesh.ReplayLaws
use planetopia_nodes.Mesh.ReplayLaws.{replay_window, no_false_replay, sent_before}
use planetopia_nodes.Mesh.Queue.{IsValid, contents, Takes, ring_refines_queue}
use planetopia_nodes.Mesh.Interleaving.{
  System, Reach, here, next, check, copy, publish, takes, handling, waiting,
}
use planetopia_nodes.Mesh.Concurrency.{accepted_handled, handled_entry_stable}
use planetopia_nodes.Mesh.Peers.{find_peer}
use planetopia_nodes.Mesh.Hops.{delivered}
use planetopia_nodes.Mesh.AdapterData.{delivered-process_adapter_data}
use planetopia_nodes.Mesh.Handled.{Drains, drain_handles_all}
use planetopia_nodes.Mesh.Enrollment.{IsEnrolled, enroll_peer-IsEnrolled}
use planetopia_nodes.Examples.Data.{
  peer_mac, foreign_mac, key, env, empty_ring, empty_ring-IsValid, node, entry, beacon, reading,
}

empty_cache-IsValid : ReplayLaws.IsValid empty_cache
empty_cache-IsValid = record { size = refl; in_range = omega arith }

fresh : (is_replay empty_cache beacon).0 ≡ false
unfolding is_replay seen bytes_eq
fresh = refl

replay_window_example :
    (is_replay (ReplayLaws.run (is_replay empty_cache beacon).1 (reading ∷ [])) beacon).0 ≡ true
replay_window_example =
    replay_window empty_cache beacon (reading ∷ []) empty_cache-IsValid fresh (omega arith)

rejected : (is_replay (ReplayLaws.run empty_cache (beacon ∷ [])) beacon).0 ≡ true
unfolding ReplayLaws.run
rejected = replay_window empty_cache beacon [] empty_cache-IsValid fresh (omega arith)

no_false_replay_example : sent_before (beacon ∷ []) beacon ≡ true
no_false_replay_example = no_false_replay (beacon ∷ []) beacon (omega arith) rejected

-- The ring once an entry has been written and published.
abbrev full_slots : RecvQueue
full_slots = record empty_ring { slots = set empty_ring.slots 0 entry }

abbrev one_entry : RecvQueue
one_entry = record full_slots { head = 1 }

abbrev no_entry : RecvQueue
no_entry = record one_entry { tail = 1 }

abbrev handling_one : System
handling_one = record {
  queue = no_entry;
  producer = waiting;
  consumer = handling 0 entry;
  accepted = entry ∷ [];
  handled = entry ∷ [];
}

taken : take_entry one_entry ≡ some (entry, no_entry)
unfolding take_entry
taken = refl

-- The callback accepts one frame, and the main task takes it.
one_frame : Reach empty_ring handling_one
one_frame =
    next
      (next (next (next here (check entry refl (omega arith))) (copy entry full_slots refl refl))
        (publish entry one_entry refl refl))
      (takes entry no_entry refl taken)

accepted_handled_example : handling_one.accepted ≡ handling_one.handled ++ contents no_entry
accepted_handled_example = accepted_handled empty_ring-IsValid refl one_frame

handled_entry_stable_example : get_or no_entry.slots 0 empty_slot ≡ entry
handled_entry_stable_example = handled_entry_stable 0 entry empty_ring-IsValid refl one_frame refl

ring_refines_queue_example :
    let q = on_data_recv one_entry peer_mac reading 127 in
    IsValid q
    × (contents q ≡ entry ∷ record { src_mac = peer_mac; msg = reading } ∷ [])
    × Takes one_entry (take_entry one_entry)
ring_refines_queue_example =
    ring_refines_queue one_entry peer_mac reading 127
      (record { size = refl; head_in = omega arith; tail_in = omega arith })

abbrev with_entry : Mesh
with_entry = record node { queue = one_entry }

drain_handles_all_example :
    let r = drain_recv_queue 8 env with_entry in
    Drains env with_entry (entry ∷ []) r.0 r.1 × IsValid r.0.queue × (contents r.0.queue ≡ [])
drain_handles_all_example =
    drain_handles_all env with_entry
      (record { size = refl; head_in = omega arith; tail_in = omega arith })

delivered-process_adapter_data_example :
    delivered (process_adapter_data env node reading).1 ≡ reading ∷ []
unfolding bytes_eq
delivered-process_adapter_data_example = delivered-process_adapter_data env node reading

enroll_peer-IsEnrolled_example :
    IsEnrolled env (enroll_peer env node foreign_mac key).0 foreign_mac key
unfolding find_peer bytes_eq
enroll_peer-IsEnrolled_example = enroll_peer-IsEnrolled env node foreign_mac key refl
