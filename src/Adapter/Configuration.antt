-- ===== src/Adapter/Configuration.antt =====
-- A node's adapter type: stored, loaded at the next boot, and set over the mesh.
use planetopia_nodes.Shared.{
  ℕ, ◌<◌, ◌≡◌, refl, sym, ap, ◌∙◌, inl, inr, true, false, ◌&&◌, [], ◌∷◌, arith, ◌==◌, if◌then◌else◌,
  ==_iff, Bool-cases, get_or,
}
use planetopia_nodes.Errors.Codes.{ErrorTypeDigit, ModuleDigit, fault}
use planetopia_nodes.Eeprom.Layout
use planetopia_nodes.Eeprom.Rom.{read, write, read-write}
use planetopia_nodes.Eeprom.RoundTrips.{IsWritable}
use planetopia_nodes.Eeprom.Durability.{power_cycle}
use planetopia_nodes.Eeprom.Init.{init}
use planetopia_nodes.Eeprom.Manager.{
  Manager, new, load_adapter_type, save_adapter_type, save_node_id,
}
use planetopia_nodes.Adapter.Types.{serial_adapter, raw, of_raw, is_type}
use planetopia_nodes.Adapter.Factory.{
  adapter_type_from_eeprom, adapter_type_to_eeprom, load_adapter_type_from_eeprom,
  save_adapter_type_to_eeprom, initialize_defaults_if_unset, nothing, create_adapter,
  create_from_eeprom,
}
use planetopia_nodes.Adapter.Dispatch.{Node, restarts, opcode, is_target, control, on_mesh_data}
use planetopia_nodes.Mesh.Types.{MeshMessage}

raw-of_raw : (n : ℕ) → raw (of_raw n) ≡ n
unfolding of_raw
raw-of_raw n = ground arith

-- The byte that stands for a type read from a byte.
stored_byte :
    (b : ℕ)
    → b < 256
    → adapter_type_to_eeprom (adapter_type_from_eeprom b) ≡ (if b == 255 then 2 else b)
unfolding adapter_type_to_eeprom adapter_type_from_eeprom
stored_byte b h = ground (arith, raw-of_raw b)

load-save :
    (m : Manager) (b : ℕ) → IsWritable m → b < 255 → load_adapter_type (save_adapter_type m b) ≡ b
unfolding load_adapter_type save_adapter_type
load-save m b w h =
    ground
      (arith, w.started, w.production, read-write m.rom Layout.adapter_type b Layout.adapter_type)

two_like_unset : adapter_type_from_eeprom 2 ≡ adapter_type_from_eeprom 255
unfolding adapter_type_from_eeprom of_raw
two_like_unset = refl

-- A type that was read from a byte is stored and loaded back as it was.
pub adapter_type_round_trip :
    (m : Manager) (b : ℕ)
    → IsWritable m
    → b < 256
    → load_adapter_type_from_eeprom false
        (save_adapter_type_to_eeprom false m (adapter_type_from_eeprom b))
      ≡ adapter_type_from_eeprom b
unfolding load_adapter_type_from_eeprom save_adapter_type_to_eeprom
adapter_type_round_trip m b w h = rw (stored_byte b h) (elim (Bool-cases (b == 255)) [
  | inl e ↦
      rw (e, load-save m 2 w (omega arith))
        (two_like_unset ∙ ap adapter_type_from_eeprom (sym ((==_iff b 255).0 e)))
  | inr e ↦ rw (e, load-save m b w (ground arith)) refl
])

-- On a started manager, outside developer mode, a CONFIG_SET that names the node or all nodes puts the
-- type of its byte 7 into the buffer, where it is read back as that type, and restarts the node; that
-- is the only action.
pub config_set_applied :
    (n : Node) (m : Manager) (msg : MeshMessage)
    → IsWritable m
    → n.is_dev_mode ≡ false
    → is_type msg.data_type serial_adapter ≡ true
    → opcode msg ≡ n.opcodes.config_set
    → is_target n msg ≡ true
    → get_or msg.payload 7 0 < 256
    → (load_adapter_type_from_eeprom false (on_mesh_data n m msg).0
        ≡ adapter_type_from_eeprom (get_or msg.payload 7 0))
      × ((on_mesh_data n m msg).1 ≡ restarts ∷ [])
unfolding on_mesh_data control
config_set_applied n m msg w production serial op target byte =
    let here : ((opcode msg == n.opcodes.config_set) && is_target n msg) ≡ true = ground arith in
    rw (serial, here, production) (adapter_type_round_trip m (get_or msg.payload 7 0) w byte, refl)

committed-save_adapter_type :
    (m : Manager) (b : ℕ) → (save_adapter_type m b).rom.committed ≡ m.rom.committed
unfolding save_adapter_type write
committed-save_adapter_type m b = ground arith

committed-save_node_id : (m : Manager) (b : ℕ) → (save_node_id m b).rom.committed ≡ m.rom.committed
unfolding save_node_id write
committed-save_node_id m b = ground arith

committed-on_mesh_data :
    (n : Node) (m : Manager) (msg : MeshMessage)
    → (on_mesh_data n m msg).0.rom.committed ≡ m.rom.committed
unfolding on_mesh_data control save_adapter_type_to_eeprom
committed-on_mesh_data n m msg = ground (
  arith,
  committed-save_adapter_type m
      (adapter_type_to_eeprom (adapter_type_from_eeprom (get_or msg.payload 7 0))),
  committed-save_node_id m (get_or msg.payload 7 0),
)

-- Nothing that onMeshData stores is committed: after a restart at once, such as the one that a
-- CONFIG_SET causes, the node is in the state that a restart before the message would have given.
pub on_mesh_data_lost_at_restart :
    (n : Node) (m : Manager) (msg : MeshMessage)
    → power_cycle (on_mesh_data n m msg).0 ≡ power_cycle m
unfolding power_cycle
on_mesh_data_lost_at_restart n m msg =
    ap (λ c. (init (new (record { cells = c; committed = c })) true).0)
      (committed-on_mesh_data n m msg)

load_adapter_type_ne :
    (m : Manager) → m.is_initialized ≡ true → (load_adapter_type m == 255) ≡ false
unfolding load_adapter_type
load_adapter_type_ne m h = ground arith

keeps-initialize_defaults :
    (m : Manager) → m.is_initialized ≡ true → initialize_defaults_if_unset false m ≡ m
unfolding initialize_defaults_if_unset
keeps-initialize_defaults m h = rw (load_adapter_type_ne m h) refl

erased_type :
    (m : Manager)
    → m.is_initialized ≡ true
    → read m.rom Layout.adapter_type ≡ 255
    → load_adapter_type m ≡ 0
unfolding load_adapter_type
erased_type m h e = ground arith

erased_create :
    (m : Manager)
    → load_adapter_type m ≡ 0
    → create_from_eeprom false m ≡ nothing (fault ErrorTypeDigit.config ModuleDigit.adapter 2)
unfolding create_from_eeprom load_adapter_type_from_eeprom adapter_type_from_eeprom of_raw
    create_adapter
erased_create m e = rw e refl

-- On a started manager with an erased adapter byte, outside developer mode, initializeDefaultsIfUnset
-- writes nothing, and the factory then creates no adapter but reports the fault of an unknown type.
pub erased_node_has_no_adapter :
    (m : Manager)
    → m.is_initialized ≡ true
    → read m.rom Layout.adapter_type ≡ 255
    → (initialize_defaults_if_unset false m ≡ m)
      × (create_from_eeprom false (initialize_defaults_if_unset false m)
          ≡ nothing (fault ErrorTypeDigit.config ModuleDigit.adapter 2))
erased_node_has_no_adapter m started erased =
    let e = keeps-initialize_defaults m started in
    (e, ap (create_from_eeprom false) e ∙ erased_create m (erased_type m started erased))
