-- ===== src/Examples/Node.antt =====
-- The hardware and the program as a whole at concrete inputs.
use planetopia_nodes.Shared.{
  ◌≡◌, refl, ◌↔◌, inr, true, false, not, none, List, [], ◌∷◌, arith, ◌==◌, if◌then◌else◌, replicate,
  Bytes,
}
use planetopia_nodes.Errors.Codes.{ErrorTypeDigit, ModuleDigit, fault}
use planetopia_nodes.Errors.Core.{ErrorCore, fresh}
use planetopia_nodes.Eeprom.Rom.{Rom, read}
use planetopia_nodes.Eeprom.Manager.{load_master_flag}
use planetopia_nodes.Eeprom.Durability.{as_flash}
use planetopia_nodes.Mesh.BootEpoch.{IsRadio}
use planetopia_nodes.Mesh.Startup.{Radio}
use planetopia_nodes.Adapter.Pir.{new_sensor}
use planetopia_nodes.Serial.Frames.{new_framer}
use planetopia_nodes.Serial.Inject.{inject, expected, inject-receive}
use planetopia_nodes.Hardware.Display.{pos, show}
use planetopia_nodes.Hardware.Digits.{right_aligned, decimal, has_inner_zero, show-right_aligned}
use planetopia_nodes.Hardware.Wire.{set_segments}
use planetopia_nodes.Hardware.Frames.{watch, idle, watch-set_segments}
use planetopia_nodes.Hardware.Alarm.{signal, signal_never_returns}
use planetopia_nodes.Hardware.Pins.{new_gpio}
use planetopia_nodes.Hardware.Led.{Led}
use planetopia_nodes.Hardware.Lamp.{
  run, level, faults, IsTracked, starts, toggles, blinks, run-IsTracked,
}
use planetopia_nodes.Hardware.Lamp
use planetopia_nodes.Main.Buttons.{released}
use planetopia_nodes.Main.Wipe.{Round, wipe_count, wipe_never_confirmed}
use planetopia_nodes.Main.Wipe
use planetopia_nodes.Main.App.{pir, App}
use planetopia_nodes.Main.Boot.{Cause, Board, setup}
use planetopia_nodes.Main.Watchdog.{watchdog_halt_unreachable}
use planetopia_nodes.Main.Life.{here, has_halted}
use planetopia_nodes.Main.Erased.{has_come_up, erased_node_never_runs}
use planetopia_nodes.Main.Rounds.{Inputs}
use planetopia_nodes.Main.Loop.{first_half, rounds, loop, toggle_role}
use planetopia_nodes.Main.Gate.{role_fixed, locked_end, locked_round}
use planetopia_nodes.Main.Kept.{IsKept}
use planetopia_nodes.Main.Restart.{toggled_role_survives}
use planetopia_nodes.Main.Provisioned.{IsReady}
use planetopia_nodes.Mesh.Receive.{take_entry}
use planetopia_nodes.Mesh.Delivery.{drain_pending_enrollment}
use planetopia_nodes.Mesh.Loop.{dispatch_relay}
use planetopia_nodes.Mesh.Beacons.{check_master_timeout}
use planetopia_nodes.Errors.Core.{drain_pending_blink}
use planetopia_nodes.Eeprom.Manager.{flush_if_dirty, load_enrolled_flag}
use planetopia_nodes.Eeprom.RoundTrips.{IsWritable}
use planetopia_nodes.Main.Boot.{runs}
use planetopia_nodes.Main.Rounds.{on_radio}
use planetopia_nodes.Main.Loop.{
  start_round, drain, drain_on, tick, tick_on, identify, show_identity, flash_dashes, is_locked,
}
use planetopia_nodes.Main.Restart.{toggled_role_survives}
use planetopia_nodes.Main.Provisioned.{IsReady}
use planetopia_nodes.Examples.Data.{node_mac, key, env, node, manager}

show-right_aligned_example :
    (show (pos 105) false ≡ right_aligned false (decimal 105)) ↔ (has_inner_zero 105 ≡ false)
show-right_aligned_example = show-right_aligned 105 (omega arith)

watch-set_segments_example :
    watch (idle []) (set_segments 7 (0x3F ∷ 6 ∷ 0x5B ∷ 0x4F ∷ []))
    ≡ idle ((0x40 ∷ []) ∷ (0xC0 ∷ 0x3F ∷ 6 ∷ 0x5B ∷ 0x4F ∷ []) ∷ (0x8F ∷ []) ∷ [])
watch-set_segments_example =
    watch-set_segments [] 7 (0x3F ∷ 6 ∷ 0x5B ∷ 0x4F ∷ []) (omega arith) (omega arith)

abbrev with_display : ErrorCore
with_display = record fresh {
  has_error_led = true;
  led_ready = true;
  has_display = true;
  initialized = true;
}

signal_never_returns_example :
    signal 1000 (λ j. false) (fault ErrorTypeDigit.config ModuleDigit.mesh 7) with_display 0 ≡ none
signal_never_returns_example =
    signal_never_returns 1000 (λ j. false) (fault ErrorTypeDigit.config ModuleDigit.mesh 7)
      with_display 0 refl (λ i. (0, omega arith, refl))

-- The red LED, started, toggled and blinked twice.
abbrev red_led : Led
red_led = record { gpio = new_gpio 33; is_on = false; is_system_error = true }

abbrev lamp_calls : List Lamp.Call
lamp_calls = starts ∷ toggles ∷ blinks 2 100 100 ∷ []

run-IsTracked_example :
    IsTracked (run red_led lamp_calls).0 (level true (run red_led lamp_calls).1)
    × (red_led.is_system_error ≡ true → faults (run red_led lamp_calls).1 ≡ [])
run-IsTracked_example = run-IsTracked lamp_calls red_led true (λ e. cc)

-- A frame of two bytes, and the start of another.
abbrev line_bytes : Bytes
line_bytes = 2 ∷ 0 ∷ 0xC0 ∷ 9 ∷ 5 ∷ []

inject-receive_example : inject new_framer 1 line_bytes ≡ expected new_framer 1 line_bytes
inject-receive_example = inject-receive new_framer 1 line_bytes (λ e. cc)

-- A press of twelve seconds, and one right behind it.
abbrev presses : List Round
presses =
    record { pressed = true; now = 1000; later = 1000 }
    ∷ record { pressed = true; now = 6000; later = 6000 }
    ∷ record { pressed = true; now = 7000; later = 7000 }
    ∷ record { pressed = true; now = 12000; later = 12000 }
    ∷ record { pressed = false; now = 12500; later = 12500 }
    ∷ []

wipe_never_confirmed_example : wipe_count (Wipe.run released presses).1 ≡ 0
wipe_never_confirmed_example = wipe_never_confirmed 0 released presses (omega arith) (omega arith)

abbrev erased : Rom
erased = record { cells = λ x. 255; committed = λ x. 255 }

abbrev the_radio : Radio
the_radio = record { new_keys = (key, key); own_mac = node_mac; now_ok = true }

the_radio-IsRadio : IsRadio the_radio
the_radio-IsRadio = record { private_size = refl; public_size = refl }

abbrev board : Board
board = record {
  cause = Cause.watchdog;
  reason = 6;
  begin_ok = true;
  display_acks = true;
  behind_peers = replicate 64 0;
  mesh_key = replicate 16 0;
  env = env;
  radio = the_radio;
}

watchdog_halt_unreachable_example : has_halted (setup board (as_flash erased)) ≡ false
unfolding read
watchdog_halt_unreachable_example =
    watchdog_halt_unreachable erased erased board (inr refl, inr (omega arith)) here
      the_radio-IsRadio

erased_node_never_runs_example : has_come_up (setup board (as_flash erased)) ≡ false
unfolding read
erased_node_never_runs_example =
    erased_node_never_runs erased erased board
      (record { version = inr refl; type_byte = refl; dev_byte = refl }) here

abbrev app : App
app = record {
  is_dev_mode = false;
  dev_master_flag = true;
  device = pir new_sensor;
  mesh = node;
  error_core = with_display;
  startup_blink_done = true;
  last_display_toggle_ms = 0;
  dash_visible = false;
  last_enrollment_broadcast = 0;
  buttons = released;
}

abbrev inputs : Inputs
inputs = record {
  own_mac = node_mac;
  pb = record { encode = λ msg n. none; decode = λ bs. none };
  env = env;
  timeout_now = 20000;
  display_now = 20000;
  display_then = 20000;
  enroll_now = 20000;
  enroll_then = 20000;
  adapter_env = env;
  line = [];
  config_pressed = true;
  config_now = 20000;
  reset_pressed = true;
  reset_now = 20000;
  reset_then = 20000;
  flushed_at = 22000;
}

role_fixed_example : (rounds (inputs ∷ inputs ∷ []) app).app.mesh.is_master ≡ false
role_fixed_example = role_fixed (inputs ∷ inputs ∷ []) app refl

still_on : (first_half inputs app).restarted ≡ false
unfolding first_half start_round drain_pending_blink drain_on drain take_entry tick_on tick
    drain_pending_enrollment dispatch_relay flush_if_dirty on_radio identify check_master_timeout
    show_identity flash_dashes load_enrolled_flag read
still_on = refl

still_locked : is_locked (first_half inputs app).app ≡ true
unfolding first_half start_round drain_pending_blink drain_on drain take_entry tick_on tick
    drain_pending_enrollment dispatch_relay flush_if_dirty on_radio identify check_master_timeout
    show_identity flash_dashes load_enrolled_flag read
still_locked = refl

locked_round_example :
    (loop inputs app ≡ locked_end inputs (first_half inputs app)) × IsKept app (loop inputs app).app
locked_round_example = locked_round inputs app still_on still_locked

-- The same node with the adapter of a PIR sensor in its EEPROM.
abbrev pir_rom : Rom
pir_rom = record {
  cells = λ x. if x == 494 then 3 else if x == 8 then 2 else 255;
  committed = λ x. if x == 494 then 3 else if x == 8 then 2 else 255;
}

abbrev pir_app : App
pir_app = record app { mesh = record node { eeprom = record manager { rom = pir_rom } } }

pir-IsWritable : IsWritable (record manager { rom = pir_rom })
pir-IsWritable = record { started = refl; production = refl }

abbrev restarted_board : Board
restarted_board = record board { cause = Cause.software; reason = 3 }

restarted_board-IsReady : IsReady restarted_board
restarted_board-IsReady = record { restart = refl; eeprom = refl; display = refl; radio = refl }

toggled_role_survives_example :
    (up : App) × (setup restarted_board (as_flash (toggle_role inputs pir_app).app.mesh.eeprom.rom)
      ≡ runs up)
    × (up.mesh.is_master ≡ not (load_master_flag pir_app.mesh.eeprom))
unfolding read
toggled_role_survives_example =
    toggled_role_survives inputs pir_app restarted_board refl pir-IsWritable refl refl refl
      restarted_board-IsReady the_radio-IsRadio
