-- ===== src/Serial/Server.antt =====
-- What the server can do to the master node over the serial line.
use planetopia_nodes.Shared.{
  ◌≡◌, refl, ◌⊎◌, inl, inr, true, false, none, some, List, [], ◌∷◌, map, Bytes, all_are,
}
use planetopia_nodes.Mesh.Types.{MeshMessageType, join_ack, MeshMessage, Mesh}
use planetopia_nodes.Mesh.Types
use planetopia_nodes.Serial.Codec.{decode_mesh_message}
use planetopia_nodes.Serial.Handler.{
  Line, meshes, has_restarted, handle_message, answer_enrollment, handle_complete_frame,
}

has_restarted-meshes : (es : List Types.Effect) → has_restarted (map meshes es) ≡ false
unfolding has_restarted
has_restarted-meshes [] = refl
has_restarted-meshes (e ∷ es) = has_restarted-meshes es

-- A frame that decodes to nothing, or to a JOIN_ACK without a key, changes nothing in the mesh.
pub rejected_frame_ignored :
    (l : Line) (m : Mesh) (bs : Bytes) (msg : MeshMessage)
    → ((decode_mesh_message l.pb l.own_mac bs ≡ none)
        ⊎ ((decode_mesh_message l.pb l.own_mac bs ≡ some msg)
            × (msg.message_type ≡ join_ack)
            × (all_are 0 msg.enrollment_public_key ≡ true)))
    → (handle_complete_frame l m bs).0 ≡ m
unfolding handle_complete_frame handle_message answer_enrollment
rejected_frame_ignored l m bs msg (inl d) = rw (d, handle_complete_frame) refl
rejected_frame_ignored l m bs msg (inr (d, ty, key)) = rw (d, handle_complete_frame, ty, key) refl
