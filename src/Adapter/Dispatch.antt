-- ===== src/Adapter/Dispatch.antt =====
-- Adapter::onMeshData: the control messages that every node obeys, the stubs of the LED commands, and
-- the hand-over to the adapter's own method.
use planetopia_nodes.Shared.{
  ℕ, Bool, ◌&&◌, ◌||◌, List, [], ◌∷◌, ◌==◌, if◌then◌else◌, get_or, take, drop, replicate, Bytes,
  bytes_eq, all_are,
}
use planetopia_nodes.Errors.Codes.{ErrorTypeDigit, ModuleDigit, Fault, fault}
use planetopia_nodes.Eeprom.Manager.{Manager, save_node_id}
use planetopia_nodes.Adapter.Types.{AdapterType, serial_adapter, led_adapter, is_type, Opcodes}
use planetopia_nodes.Adapter.Factory.{adapter_type_from_eeprom, save_adapter_type_to_eeprom}
use planetopia_nodes.Mesh.Types.{Mac, MeshMessage}

-- What an adapter finds outside: its type, whether its transmit function is set, the radio's MAC, the
-- factory's developer flag and the opcodes.
pub record Node : Type 0 where
  pub adapter_type : AdapterType  -- _adapterType
  pub can_transmit : Bool  -- mesh_transmit_fn
  pub own_mac : Mac
  pub is_dev_mode : Bool
  pub opcodes : Opcodes

-- What it does outside: ESP.restart, err::fail, the transmit function with the bytes that the caller
-- sets, and the adapter's onMeshDataImpl.
pub data Action : Type 0 where
  restarts : Action
  fails : Fault → Action
  transmits : AdapterType → Bytes → Action
  passes_on : MeshMessage → Action

-- `sendDataThroughMesh`
unfoldable pub send_data_through_mesh : Node → AdapterType → Bytes → List Action
send_data_through_mesh n t bytes =
    if n.can_transmit
    then transmits t bytes ∷ []
    else fails (fault ErrorTypeDigit.config ModuleDigit.adapter 1) ∷ []

-- Whether the six bytes behind the opcode name this node or all nodes.
abbrev pub is_target : Node → MeshMessage → Bool
is_target n msg = let mac = take 6 (drop 1 msg.payload) in all_are 255 mac || bytes_eq mac n.own_mac

abbrev pub opcode : MeshMessage → ℕ
opcode msg = get_or msg.payload 0 0

-- The block for a message of the type SERIAL_ADAPTER up to the return: the call of ESP.restart does
-- not come back.
unfoldable pub control : Node → Manager → MeshMessage → Manager × List Action
control n m msg =
    if (opcode msg == n.opcodes.config_set) && is_target n msg
    then (
      save_adapter_type_to_eeprom n.is_dev_mode m
          (adapter_type_from_eeprom (get_or msg.payload 7 0)),
      restarts ∷ [],
    )
    else (
      (if (opcode msg == n.opcodes.node_id_set) && is_target n msg
          then save_node_id m (get_or msg.payload 7 0)
          else m),
      if is_type n.adapter_type serial_adapter then passes_on msg ∷ [] else [],
    )

-- The 12 bytes of ackData.
abbrev ack_data : Node → ℕ → Bytes
ack_data n op = n.opcodes.command_ack ∷ op ∷ replicate 10 0

unfoldable pub led_command : Node → MeshMessage → List Action
led_command n msg =
    let op = opcode msg in
    if (op == n.opcodes.led_solid) || (op == n.opcodes.led_off) || (op == n.opcodes.led_blink)
    then send_data_through_mesh n serial_adapter (ack_data n op)
    else []

unfoldable pub on_mesh_data : Node → Manager → MeshMessage → Manager × List Action
on_mesh_data n m msg =
    if is_type msg.data_type serial_adapter
    then control n m msg
    else if is_type msg.data_type led_adapter && is_type n.adapter_type led_adapter
    then (m, led_command n msg)
    else (m, if is_type msg.data_type n.adapter_type then passes_on msg ∷ [] else [])
