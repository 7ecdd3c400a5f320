-- ===== src/Adapter/Pir.antt =====
-- PIR_Adapter: the motion sensor's interrupt, the report of a motion and the cooldown. The loop here
-- is the one that follows init().
use planetopia_nodes.Shared.{
  ℕ, ◌*◌, ◌/◌, ◌%◌, Bool, true, false, not, ◌&&◌, List, [], ◌∷◌, ◌++◌, ltb, leb, if◌then◌else◌,
  elapsed, take, replicate, Bytes,
}
use planetopia_nodes.Config
use planetopia_nodes.Errors.Codes.{ErrorTypeDigit, ModuleDigit, fault}
use planetopia_nodes.Adapter.Types.{serial_adapter, pir_adapter}
use planetopia_nodes.Adapter.Dispatch.{Node, Action, fails, send_data_through_mesh}

-- The members of PIR_Adapter, with the flag of Pir.
pub record Sensor : Type 0 where
  pub motion_detected : Bool  -- _pir._motionDetected
  pub cooldown_seconds : ℕ
  pub last_trigger : ℕ
  pub timer_active : Bool
  pub motion_sent : Bool
  pub interrupt_enabled : Bool
  pub is_initialized : Bool
  pub last_health_ms : ℕ

-- The constructor.
abbrev pub new_sensor : Sensor
new_sensor = record {
  motion_detected = false;
  cooldown_seconds = 3;
  last_trigger = 0;
  timer_active = false;
  motion_sent = false;
  interrupt_enabled = false;
  is_initialized = false;
  last_health_ms = 0;
}

-- `init`, where `ok` is the answer of the pin.
unfoldable pub init : Sensor → Bool → Bool × Sensor × List Action
init s ok =
    if s.is_initialized
    then (true, s, [])
    else if ok
    then (
      true,
      record s { motion_detected = false; interrupt_enabled = true; is_initialized = true },
      [],
    )
    else (false, s, fails (fault ErrorTypeDigit.config ModuleDigit.adapter 1) ∷ [])

-- The interrupt: `detectMotion`.
unfoldable pub detect_motion : Sensor → Sensor
detect_motion s =
    if s.interrupt_enabled
    then record s { motion_detected = true; interrupt_enabled = false }
    else s

abbrev pub motion_bytes : Bytes
motion_bytes = 1 ∷ replicate 63 0

abbrev health_bytes : Node → ℕ → Bytes
health_bytes n now =
    let uptime = now / 1000 in
    (n.opcodes.node_health ∷ 2 ∷ [])
    ++ take 6 n.own_mac
    ++ (uptime % 256 ∷ uptime / 256 % 256 ∷ uptime / 65536 % 256 ∷ uptime / 16777216 % 256 ∷ [])
    ++ replicate 52 0

-- The first block: a motion that the interrupt has left starts the timer.
unfoldable pub notice_motion : Sensor → ℕ → Sensor
notice_motion s now =
    if s.motion_detected
    then record s {
      last_trigger = now;
      timer_active = true;
      motion_sent = false;
      motion_detected = false;
    }
    else s

-- The second block: the report.
unfoldable pub report_motion : Node → Sensor → Sensor × List Action
report_motion n s =
    if s.timer_active && not s.motion_sent
    then (record s { motion_sent = true }, send_data_through_mesh n pir_adapter motion_bytes)
    else (s, [])

-- The third block: the end of the cooldown re-arms the interrupt, which an initialised pin accepts.
unfoldable pub end_cooldown : Sensor → ℕ → Sensor
end_cooldown s now =
    if s.timer_active && ltb (s.cooldown_seconds * 1000) (elapsed now s.last_trigger)
    then record s { timer_active = false; motion_sent = false; interrupt_enabled = true }
    else s

-- The fourth block.
unfoldable pub report_health : Node → Sensor → ℕ → Sensor × List Action
report_health n s now =
    if leb Config.health_report_interval_ms (elapsed now s.last_health_ms)
    then (
      record s { last_health_ms = now },
      send_data_through_mesh n serial_adapter (health_bytes n now),
    )
    else (s, [])

unfoldable pub loop : Node → Sensor → ℕ → Sensor × List Action
loop n s now =
    if not s.is_initialized
    then (s, [])
    else let (s₁, acts₁) = report_motion n (notice_motion s now) in
      let (s₂, acts₂) = report_health n (end_cooldown s₁ now) now in (s₂, acts₁ ++ acts₂)
