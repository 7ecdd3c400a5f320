-- ===== src/Mesh/Printing.antt =====
-- Mesh.cpp: printMeshMessage and debugDumpRadio.
use planetopia_nodes.Shared.{ℕ, not, [], ◌∷◌, ◌++◌, ltb, if◌then◌else◌, take, Bytes}
use planetopia_nodes.Log.Text.{Text, text, hex, decimal}
use planetopia_nodes.Log.Logger.{LogLevel, log_debug, log_info, logln}
use planetopia_nodes.Log.MacAddress.{to_string}
use planetopia_nodes.Adapter.Types.{raw}
use planetopia_nodes.Mesh.Types.{MeshMessageType, master_beacon, byte_of_type, MeshMessage, Mesh}

-- Two digits and a space for each byte.
unfoldable pub hex_bytes : Bytes → Text
hex_bytes [] = []
hex_bytes (b ∷ bs) = (if ltb b 16 then text "0" else []) ++ hex b ++ text " " ++ hex_bytes bs

abbrev type_name : MeshMessageType → Text
type_name master_beacon = text "MASTER_BEACON"
type_name _ = text "ADAPTER_DATA"

abbrev mesh_line : LogLevel → Text → Text
mesh_line level message = logln level (text "MESH") message log_debug

unfoldable pub print_mesh_message : LogLevel → MeshMessage → Text
print_mesh_message level msg =
    mesh_line level (text "------ Mesh Message ------")
    ++ mesh_line level (text "Origin:    " ++ to_string msg.origin)
    ++ mesh_line level (text "Target:    " ++ to_string msg.target)
    ++ mesh_line level (text "Last Hop:  " ++ to_string msg.last_hop)
    ++ mesh_line level (
        text "MsgType:   "
        ++ decimal (byte_of_type msg.message_type)
        ++ text " ("
        ++ type_name msg.message_type
        ++ text ")")
    ++ mesh_line level (text "DataType:  " ++ decimal (raw msg.data_type))
    ++ mesh_line level (text "Data:      " ++ hex_bytes (take 12 msg.payload))
    ++ mesh_line level (text "Hop Count: " ++ decimal msg.hop_count)
    ++ mesh_line level (text "-------------------------")

-- `debugDumpRadio`, on a channel of the radio; it prints in developer mode only.
unfoldable pub debug_dump_radio : LogLevel → ℕ → Mesh → Text
debug_dump_radio level channel m =
    if not m.eeprom.is_dev_mode
    then []
    else logln level (text "MESH")
        (text "DBG Channel=" ++ decimal channel ++ text " Key=" ++ hex_bytes m.mesh_key) log_info
