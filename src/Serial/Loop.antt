-- ===== src/Serial/Loop.antt =====
-- Serial_Adapter::loop: the health report, then all bytes that have come in.
use planetopia_nodes.Shared.{
  ℕ, Bool, not, ◌||◌, List, [], ◌++◌, leb, ◌==◌, if◌then◌else◌, elapsed, Bytes,
}
use planetopia_nodes.Config
use planetopia_nodes.Mesh.Types.{Mesh}
use planetopia_nodes.Serial.Frames.{Framer, receive}
use planetopia_nodes.Serial.Handler.{Line, Action, send_health_report, handle_events}

-- The members of Serial_Adapter.
pub record Port : Type 0 where
  pub framer : Framer
  pub last_health_ms : ℕ  -- lastHealthMillis
  pub last_hops : ℕ  -- lastReportedHopCount

abbrev pub hop_count : Mesh → ℕ
hop_count m = if m.is_master then 0 else m.current_master.distance

abbrev pub report_is_due : Line → Port → Mesh → Bool
report_is_due l p m =
    not (hop_count m == p.last_hops)
    || leb Config.health_report_interval_ms (elapsed l.env.now p.last_health_ms)

-- The first half of the loop.
unfoldable pub report_health : Line → Port → Mesh → Port × Mesh × List Action
report_health l p m =
    if report_is_due l p m
    then (let (m', acts) = send_health_report l m in
        (record p { last_health_ms = l.env.now; last_hops = hop_count m }, m', acts))
    else (p, m, [])

-- The second half: every frame is handled as soon as its last byte is in.
unfoldable pub read_serial : Line → Port → Mesh → Bytes → Port × Mesh × List Action
read_serial l p m bs =
    let (f, events) = receive p.framer bs in
    let (m', acts) = handle_events l m events in (record p { framer = f }, m', acts)

unfoldable pub loop : Line → Port → Mesh → Bytes → Port × Mesh × List Action
loop l p m bs =
    let (p₁, m₁, acts₁) = report_health l p m in
    let (p₂, m₂, acts₂) = read_serial l p₁ m₁ bs in (p₂, m₂, acts₁ ++ acts₂)
