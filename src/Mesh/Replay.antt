-- ===== src/Mesh/Replay.antt =====
-- Mesh::isReplay: the cache of the last messages seen.
use planetopia_nodes.Shared.{
  ℕ, ◌+◌, ◌%◌, Bool, true, false, ◌&&◌, ◌||◌, List, [], ◌∷◌, ◌==◌, if◌then◌else◌, set, replicate,
  bytes_eq,
}
use planetopia_nodes.Mesh.Types.{MeshMessage, ReplayEntry, ReplayCache, zero_mac}

abbrev pub replay_cache_size : ℕ
replay_cache_size = 16

abbrev pub empty_cache : ReplayCache
empty_cache = record {
  entries = replicate replay_cache_size (record { mac = zero_mac; epoch = 0; seq = 0 });
  idx = 0;
}

abbrev pub entry_of : MeshMessage → ReplayEntry
entry_of msg = record { mac = msg.origin; epoch = msg.epoch_num; seq = msg.seq_num }

abbrev pub matches : ReplayEntry → MeshMessage → Bool
matches e msg = bytes_eq e.mac msg.origin && (e.epoch == msg.epoch_num) && (e.seq == msg.seq_num)

-- The search loop.
unfoldable pub seen : List ReplayEntry → MeshMessage → Bool
seen [] msg = false
seen (e ∷ es) msg = matches e msg || seen es msg

unfoldable pub remember : ReplayCache → MeshMessage → ReplayCache
remember c msg = record {
  entries = set c.entries c.idx (entry_of msg);
  idx = (c.idx + 1) % replay_cache_size;
}

unfoldable pub is_replay : ReplayCache → MeshMessage → Bool × ReplayCache
is_replay c msg = if seen c.entries msg then (true, c) else (false, remember c msg)
