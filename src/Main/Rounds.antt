-- ===== src/Main/Rounds.antt =====
-- main.ino: what a round of the loop finds and does, and the callback for received messages.
use planetopia_nodes.Shared.{
  ℕ, Bool, true, false, some, List, [], ◌∷◌, ◌++◌, map, if◌then◌else◌, Bytes,
}
use planetopia_nodes.Errors.Core
use planetopia_nodes.Adapter.Dispatch.{Node, on_mesh_data}
use planetopia_nodes.Adapter.Dispatch
use planetopia_nodes.Mesh.Types.{Mac, MeshMessage, Mesh, Env, delivers, relays_enrollment}
use planetopia_nodes.Mesh.Types
use planetopia_nodes.Mesh.Sending.{transmit}
use planetopia_nodes.Serial.Codec.{Nanopb}
use planetopia_nodes.Serial.Handler.{
  Line, has_restarted, on_mesh_data_impl, relay_enrollment_to_server,
}
use planetopia_nodes.Serial.Handler
use planetopia_nodes.Main.App.{Device, pir, serial, device_type, App}

-- What a round finds outside. `env` serves mesh.loop and the callbacks in it, `adapter_env` the loop of
-- the adapter with the bytes `line` of the server, and each other field is a reading of millis() or of
-- a button, in the order of the code.
pub record Inputs : Type 0 where
  pub own_mac : Mac
  pub pb : Nanopb
  pub env : Env
  pub timeout_now : ℕ
  pub display_now : ℕ
  pub display_then : ℕ
  pub enroll_now : ℕ
  pub enroll_then : ℕ
  pub adapter_env : Env
  pub line : Bytes
  pub config_pressed : Bool
  pub config_now : ℕ
  pub reset_pressed : Bool
  pub reset_now : ℕ
  pub reset_then : ℕ
  pub flushed_at : ℕ

-- What it does outside; `green` and `red` are blinks of the LEDs.
pub data Effect : Type 0 where
  radio : Types.Effect → Effect
  server : Handler.Action → Effect
  sensor : Dispatch.Action → Effect
  reports : Core.Effect → Effect
  green red : ℕ → Effect
  segments : Bytes → Effect

-- A part of a round: ESP.restart does not come back.
pub record Run : Type 0 where
  pub app : App
  pub effects : List Effect
  pub restarted : Bool

abbrev pub goes_on : App → List Effect → Run
goes_on a es = record { app = a; effects = es; restarted = false }

-- One part after the other.
abbrev pub and_then : Run → (App → Run) → Run
and_then r k =
    if r.restarted then r else (let s = k r.app in record s { effects = r.effects ++ s.effects })

abbrev pub with_mesh : App → Mesh → App
with_mesh a m = record a { mesh = m }

abbrev pub node_of : Inputs → Env → App → Node
node_of i env a = record {
  adapter_type = device_type a.device;
  can_transmit = true;
  own_mac = i.own_mac;
  is_dev_mode = a.is_dev_mode;
  opcodes = env.opcodes;
}

abbrev pub line_of : Inputs → Env → App → Line
line_of i env a = record {
  pb = i.pb;
  env = env;
  own_mac = i.own_mac;
  is_dev_mode = a.is_dev_mode;
  can_transmit = true;
}

-- The adapter's own onMeshDataImpl: that of the PIR adapter does nothing.
unfoldable pub hand_over : Inputs → Env → App → MeshMessage → Device → Run
hand_over i env a msg (pir s) = goes_on a []
hand_over i env a msg (serial p) =
    let (m, acts) = on_mesh_data_impl (line_of i env a) a.mesh msg in
    record { app = with_mesh a m; effects = map server acts; restarted = has_restarted acts }

-- What an adapter asks for, in its order.
unfoldable pub perform : Inputs → Env → App → List Dispatch.Action → Run
perform i env a [] = goes_on a []
perform i env a (Dispatch.restarts ∷ acts) = record { app = a; effects = []; restarted = true }
perform i env a (Dispatch.fails f ∷ acts) =
    and_then (goes_on a (sensor (Dispatch.fails f) ∷ [])) (λ a'. perform i env a' acts)
perform i env a (Dispatch.transmits t bytes ∷ acts) =
    let (m, es) = transmit env a.mesh t (some bytes) in
    and_then (goes_on (with_mesh a m) (map radio es)) (λ a'. perform i env a' acts)
perform i env a (Dispatch.passes_on msg ∷ acts) =
    and_then (hand_over i env a msg a.device) (λ a'. perform i env a' acts)

-- `dataRecvCallback`
unfoldable pub data_recv_callback : Inputs → App → MeshMessage → Run
data_recv_callback i a msg =
    let m = a.mesh in
    let (e, acts) = on_mesh_data (node_of i i.env a) m.eeprom msg in
    and_then (perform i i.env (with_mesh a (record m { eeprom = e })) acts)
      (λ a'. goes_on a' (green 2 ∷ []))

-- What the mesh asks for, with its two callbacks. What follows a delivery in the list does not depend
-- on what the callback changes.
unfoldable pub on_radio : Inputs → App → List Types.Effect → Run
on_radio i a [] = goes_on a []
on_radio i a (delivers msg ∷ es) = and_then (data_recv_callback i a msg) (λ a'. on_radio i a' es)
on_radio i a (relays_enrollment mac key ∷ es) =
    and_then (goes_on a (map server (relay_enrollment_to_server (line_of i i.env a) mac key)))
      (λ a'. on_radio i a' es)
on_radio i a (e ∷ es) = and_then (goes_on a (radio e ∷ [])) (λ a'. on_radio i a' es)
