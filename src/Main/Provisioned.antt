-- ===== src/Main/Provisioned.antt =====
-- setup on a node whose EEPROM names a PIR adapter and no developer mode.
use planetopia_nodes.Shared.{
  ◌≡◌, refl, ap, ◌∙◌, Bool, true, false, not, some, ◌++◌, arith, ◌==◌, if◌then◌else◌,
}
use planetopia_nodes.Config
use planetopia_nodes.Errors.Core.{ErrorCore}
use planetopia_nodes.Errors.Core
use planetopia_nodes.Errors.Reporting
use planetopia_nodes.Eeprom.Rom.{read}
use planetopia_nodes.Eeprom.Manager.{
  Manager, set_dev_mode, load_dev_flag, load_adapter_type, save_reboot_count, save_reboot_reason,
}
use planetopia_nodes.Eeprom.Records.{has_peers, save_peer_list}
use planetopia_nodes.Eeprom.Calls.{
  Op, saves_reboot_reason, saves_reboot_count, saves_peer_list, step,
}
use planetopia_nodes.Eeprom.Isolation.{footprint, IsSized, Outside, read-step-Outside}
use planetopia_nodes.Adapter.Types.{of_raw}
use planetopia_nodes.Adapter.Factory.{
  adapter_type_from_eeprom, load_adapter_type_from_eeprom, initialize_defaults_if_unset,
  create_adapter, create_from_eeprom, Created,
}
use planetopia_nodes.Adapter.Pir.{new_sensor}
use planetopia_nodes.Adapter.Pir
use planetopia_nodes.Mesh.Types.{Mesh}
use planetopia_nodes.Mesh.Startup
use planetopia_nodes.Hardware.Pins.{is_one_of, is_valid_output_pin, is_valid_input_pin}
use planetopia_nodes.Main.App.{App, pir}
use planetopia_nodes.Main.Boot.{
  Cause, Board, Outcome, runs, record_reset, start_error_core, peers_memory, write_defaults,
  start_node, choose_adapter, start_adapter, take_role, set_up,
}

-- The EEPROM names a PIR adapter, and the developer flag is not set.
pub record IsProvisioned (m : Manager) : Type 0 where
  pub started : m.is_initialized ≡ true
  pub type_byte : read m.rom 8 ≡ 2
  pub dev_byte : (read m.rom 1 == 1) ≡ false

-- What setup finds is in order, behind a restart by the firmware.
pub record IsReady (b : Board) : Type 0 where
  pub restart : b.cause ≡ Cause.software
  pub eeprom : b.begin_ok ≡ true
  pub display : b.display_acks ≡ true
  pub radio : b.radio.now_ok ≡ true

kept :
    (m m' : Manager)
    → m'.is_initialized ≡ m.is_initialized
    → read m'.rom 8 ≡ read m.rom 8
    → read m'.rom 1 ≡ read m.rom 1
    → IsProvisioned m
    → IsProvisioned m'
kept m m' s t d p = record {
  started = s ∙ p.started;
  type_byte = t ∙ p.type_byte;
  dev_byte = ap (λ n. n == 1) d ∙ p.dev_byte;
}

-- A call that saves something else.
step_kept :
    (m : Manager) (o : Op)
    → IsSized o
    → Outside 8 (footprint o)
    → Outside 1 (footprint o)
    → (step m o).is_initialized ≡ m.is_initialized
    → IsProvisioned m
    → IsProvisioned (step m o)
step_kept m o z a c s p =
    kept m (step m o) s (read-step-Outside m o 8 z (omega arith) a)
      (read-step-Outside m o 1 z (omega arith) c) p

mode_kept : (m : Manager) → IsProvisioned m → IsProvisioned (set_dev_mode m false)
unfolding set_dev_mode
mode_kept m p = record { started = p.started; type_byte = p.type_byte; dev_byte = p.dev_byte }

abbrev with_peers : Board → Bool → Manager → Manager
with_peers b found m =
    if not found
    then save_peer_list m (peers_memory Config.default_peers ++ b.behind_peers)
        Config.num_default_peers
    else m

peers_kept :
    (b : Board) (found : Bool) (m : Manager)
    → IsProvisioned m
    → IsProvisioned (with_peers b found m)
unfolding step save_peer_list
peers_kept b true m p = p
peers_kept b false m p =
    step_kept m
      (saves_peer_list (peers_memory Config.default_peers ++ b.behind_peers)
        Config.num_default_peers)
      tt (omega arith) (omega arith) (ground arith) p

acknowledged : (t : Bool) (x y : Outcome) → t ≡ true → (if not t then x else y) ≡ y
acknowledged true x y e = refl
acknowledged false x y e = cc

module _ (b : Board) (r : IsReady b) where
  reset_kept :
      (m : Manager)
      → IsProvisioned m
      → ((record_reset b m).0 ≡ false) × IsProvisioned (record_reset b m).1
  unfolding record_reset step save_reboot_reason save_reboot_count
  reset_kept m p =
      let m₁ = save_reboot_reason m b.reason in
      let p₁ =
        step_kept m (saves_reboot_reason b.reason) tt (omega arith) (omega arith) (ground arith)
          p in
      rw r.restart
        (refl, step_kept m₁ (saves_reboot_count 0) tt (omega arith) (omega arith) (ground arith) p₁)

  no_restart : (start_error_core b).1 ≡ false
  unfolding start_error_core Core.init Reporting.restarts
  no_restart = rw r.restart refl

  -- The default adapter is not needed.
  default_unneeded : (m : Manager) → IsProvisioned m → initialize_defaults_if_unset false m ≡ m
  unfolding initialize_defaults_if_unset load_adapter_type
  default_unneeded m p = ground (arith, p.started, p.type_byte)

  pub production : (m : Manager) → IsProvisioned m → load_dev_flag m ≡ false
  unfolding load_dev_flag
  production m p = ground (arith, p.dev_byte)

  defaults_kept :
      (m : Manager)
      → IsProvisioned m
      → ((write_defaults b m).0 ≡ false) × IsProvisioned (write_defaults b m).1
  unfolding write_defaults
  defaults_kept m p =
      let m₁ = set_dev_mode m false in
      let m₂ = with_peers b (has_peers m₁) m₁ in
      let p₂ = peers_kept b (has_peers m₁) m₁ (mode_kept m p) in
      rw (production m p) (rw (default_unneeded m₂ p₂) (refl, p₂))

  stored_type : (m : Manager) → IsProvisioned m → create_from_eeprom false m ≡ Created.pir (some 27)
  unfolding create_from_eeprom load_adapter_type_from_eeprom load_adapter_type
      adapter_type_from_eeprom of_raw create_adapter
  stored_type m p = rw (p.started, p.type_byte) refl

  pir_made :
      (m : Manager)
      → IsProvisioned m
      → start_adapter (choose_adapter false m) ≡ some (pir (Pir.init new_sensor true).1)
  unfolding choose_adapter start_adapter is_valid_input_pin is_one_of Pir.init
  pir_made m p = rw (stored_type m p) refl

  node_up : (m : Mesh) → (Startup.init b.env b.radio m).0 ≡ true
  unfolding Startup.init Startup.setup_esp_now
  node_up m = rw r.radio refl

  -- The node comes up in production mode.
  start_node_up :
      (core : ErrorCore) (m : Manager)
      → IsProvisioned m
      → (app : App) × (start_node b core false m ≡ runs app) × (app.is_dev_mode ≡ false)
  unfolding start_node take_role
  start_node_up core m p =
      let mesh = Startup.new Config.dual_master_mode b.mesh_key m in
      let device = pir (Pir.init new_sensor true).1 in
      (
        take_role false device core (Startup.init b.env b.radio mesh).2,
        rw (pir_made m p, start_node) (rw (node_up mesh) refl),
        refl,
      )

  set_up-eq :
      (m : Manager)
      → IsProvisioned m
      → set_up b m
        ≡ start_node b (start_error_core b).0 false (write_defaults b (record_reset b m).1).1
  unfolding set_up is_valid_output_pin is_valid_input_pin is_one_of
  set_up-eq m p =
      let (goes, p₁) = reset_kept m p in
      let m₁ = (record_reset b m).1 in
      rw (goes, no_restart, (defaults_kept m₁ p₁).0) (acknowledged b.display_acks _ _ r.display)

  pub set_up_up :
      (m : Manager)
      → IsProvisioned m
      → (app : App) × (set_up b m ≡ runs app) × (app.is_dev_mode ≡ false)
  set_up_up m p =
      let m₁ = (record_reset b m).1 in
      let p₂ = (defaults_kept m₁ (reset_kept m p).1).1 in
      let (app, up, mode) = start_node_up (start_error_core b).0 (write_defaults b m₁).1 p₂ in
      (app, set_up-eq m p ∙ up, mode)
