-- ===== src/Main/Loop.antt =====
-- main.ino: the loop.
use planetopia_nodes.Shared.{
  ℕ, zero, suc, Bool, true, false, not, ◌&&◌, ◌||◌, none, some, List, [], ◌∷◌, ◌++◌, map, ltb, leb,
  ◌==◌, if◌then◌else◌, elapsed, replicate, Bytes,
}
use planetopia_nodes.Errors.Core.{drain_pending_blink}
use planetopia_nodes.Eeprom.Manager.{
  flush_if_dirty, force_flush, load_enrolled_flag, load_master_flag, save_master_flag, load_node_id,
  clear_all,
}
use planetopia_nodes.Adapter.Pir
use planetopia_nodes.Mesh.Types.{Mesh, Env}
use planetopia_nodes.Mesh.Types
use planetopia_nodes.Mesh.Receive.{take_entry}
use planetopia_nodes.Mesh.Sending.{broadcast_master_beacon, send_enrollment_request}
use planetopia_nodes.Mesh.Beacons.{check_master_timeout}
use planetopia_nodes.Mesh.Delivery.{drain_pending_enrollment}
use planetopia_nodes.Mesh.Loop.{process_entry, dispatch_relay}
use planetopia_nodes.Serial.Handler.{has_restarted}
use planetopia_nodes.Serial.Loop
use planetopia_nodes.Hardware.Display.{pos, show, show_with_dp, blank}
use planetopia_nodes.Config
use planetopia_nodes.Main.Buttons.{
  ResetAction, nothing, arms, wipes, expires, config_button, reset_button,
}
use planetopia_nodes.Main.App.{Device, pir, serial, App}
use planetopia_nodes.Main.Rounds.{
  Inputs, radio, server, reports, green, red, segments, Run, goes_on, and_then, with_mesh, node_of,
  line_of, perform, on_radio,
}

-- drainRecvQueue with the callbacks, on fuel as in Mesh/Loop.antt.
unfoldable pub drain : ℕ → Inputs → App → Run
drain zero i a = goes_on a []
drain (suc fuel) i a =
    let m = a.mesh in
    elim (take_entry m.queue) [
      | none ↦ goes_on a []
      | some (entry, q) ↦
          let (m', es) = process_entry i.env (record m { queue = q }) entry in
          and_then (on_radio i (with_mesh a m') es) (drain fuel i)
    ]

-- The rest of mesh.loop behind drainRecvQueue.
unfoldable pub tick : Inputs → App → Run
tick i a =
    let m = a.mesh in
    let m₁ = record m { eeprom = flush_if_dirty m.eeprom i.env.now i.env.now } in
    let (m₂, es₁) = drain_pending_enrollment i.env m₁ in
    let (m₃, es₂) = dispatch_relay i.env m₂ in
    let (m₄, es₃) : Mesh × List Types.Effect =
      if m₃.is_master then broadcast_master_beacon i.env m₃ else (m₃, []) in
    on_radio i (with_mesh a m₄) (es₁ ++ es₂ ++ es₃)

abbrev pub is_enrolled : Mesh → Bool
is_enrolled m = load_enrolled_flag m.eeprom

-- The blinks at the start of the loop.
unfoldable pub start_round : App → Run
start_round a =
    let (c, es) = drain_pending_blink a.error_core in
    goes_on (record a { error_core = c; startup_blink_done = true })
      (map reports es ++ (if a.startup_blink_done then [] else green 2 ∷ red 2 ∷ []))

abbrev dashes : Bytes
dashes = replicate 4 0x40

-- The flashing of the dashes.
unfoldable pub flash_dashes : Inputs → App → Run
flash_dashes i a =
    if leb 500 (elapsed i.display_now a.last_display_toggle_ms)
    then goes_on
        (record a { last_display_toggle_ms = i.display_then; dash_visible = not a.dash_visible })
        (segments (if a.dash_visible then blank else dashes) ∷ [])
    else goes_on a []

-- The display state machine.
unfoldable pub show_identity : Inputs → App → Run
show_identity i a =
    let node_id = load_node_id a.mesh.eeprom in
    if not Config.enable_sevseg_display
    then goes_on a []
    else if not (is_enrolled a.mesh || a.mesh.is_master)
    then flash_dashes i a
    else if node_id == 0
    then goes_on a (segments (show (pos 0) false) ∷ [])
    else if a.mesh.is_master
    then goes_on a (segments (show_with_dp (pos node_id) false) ∷ [])
    else goes_on a (segments (show (pos node_id) false) ∷ [])

-- The enrollment broadcast of a node that awaits its approval.
unfoldable pub ask_enrollment : Inputs → App → Run
ask_enrollment i a =
    if ltb 10000 (elapsed i.enroll_now a.last_enrollment_broadcast)
    then goes_on (record a { last_enrollment_broadcast = i.enroll_then })
        (map radio (send_enrollment_request a.mesh))
    else goes_on a []

-- `adapter->loop()`
unfoldable pub adapter_loop : Inputs → App → Device → Run
adapter_loop i a (pir s) =
    let (s', acts) = Pir.loop (node_of i i.adapter_env a) s i.adapter_env.now in
    perform i i.adapter_env (record a { device = pir s' }) acts
adapter_loop i a (serial p) =
    let (p', m, acts) = Loop.loop (line_of i i.adapter_env a) p a.mesh i.line in
    record {
      app = record a { device = serial p'; mesh = m };
      effects = map server acts;
      restarted = has_restarted acts;
    }

-- A complete hold of the config button.
unfoldable pub toggle_role : Inputs → App → Run
toggle_role i a =
    let m = a.mesh in
    if a.is_dev_mode
    then (let new_master = not m.is_master in
        goes_on
          (record a { mesh = record m { is_master = new_master }; dev_master_flag = new_master })
          (green (if new_master then 3 else 2) ∷ []))
    else (let new_master = not (load_master_flag m.eeprom) in
        record {
          app = with_mesh a (record m {
            eeprom = force_flush (save_master_flag m.eeprom new_master) i.flushed_at;
          });
          effects = green (if new_master then 3 else 2) ∷ [];
          restarted = true;
        })

unfoldable pub press_config : Inputs → App → Run
press_config i a =
    let (b, fired) = config_button a.buttons i.config_pressed i.config_now in
    let a' = record a { buttons = b } in if fired then toggle_role i a' else goes_on a' []

-- What the reset button has decided.
unfoldable pub reset : Inputs → App → ResetAction → Run
reset i a nothing = goes_on a []
reset i a expires = goes_on a []
reset i a arms = goes_on a (red 3 ∷ [])
reset i a wipes =
    let m = a.mesh in
    record {
      app = with_mesh a (record m { eeprom = force_flush (clear_all m.eeprom) i.flushed_at });
      effects = red 5 ∷ green 5 ∷ [];
      restarted = true;
    }

unfoldable pub press_reset : Inputs → App → Run
press_reset i a =
    let (b, act) = reset_button a.buttons i.reset_pressed i.reset_now i.reset_then in
    reset i (record a { buttons = b }) act

-- The parts before the question of enrollment, the last one first.
unfoldable pub identify : Inputs → App → Run
identify i a = show_identity i (with_mesh a (check_master_timeout a.mesh i.timeout_now))

unfoldable pub tick_on : Inputs → App → Run
tick_on i a = and_then (tick i a) (identify i)

unfoldable pub drain_on : Inputs → App → Run
drain_on i a = and_then (drain 8 i a) (tick_on i)

unfoldable pub first_half : Inputs → App → Run
first_half i a = and_then (start_round a) (drain_on i)

-- The parts behind it.
unfoldable pub press_both : Inputs → App → Run
press_both i a = and_then (press_config i a) (press_reset i)

unfoldable pub second_half : Inputs → App → Run
second_half i a = and_then (adapter_loop i a a.device) (press_both i)

-- The node is neither enrolled nor a master.
abbrev pub is_locked : App → Bool
is_locked a = not (is_enrolled a.mesh) && not a.mesh.is_master

unfoldable pub gate : Inputs → App → Run
gate i a = if is_locked a then ask_enrollment i a else second_half i a

-- `loop`, from the first blink to the last button.
unfoldable pub loop : Inputs → App → Run
loop i a = and_then (first_half i a) (gate i)

-- Rounds one after the other, until one restarts the chip.
unfoldable pub rounds : List Inputs → App → Run
rounds [] a = goes_on a []
rounds (i ∷ is) a = and_then (loop i a) (rounds is)
