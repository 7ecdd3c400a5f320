-- ===== src/Main/Toggle.antt =====
-- The role that the config button stores, over the restart that follows.
use planetopia_nodes.Shared.{
  ℕ, ◌+◌, ◌%◌, ◌≡◌, refl, subst, ◌∙◌, inl, inr, Bool, true, false, not, ◌||◌, List, [], ◌∷◌, arith,
  ◌==◌, if◌then◌else◌, Bool-cases, Option-cases,
}
use planetopia_nodes.Config
use planetopia_nodes.Errors.Core.{ErrorCore}
use planetopia_nodes.Eeprom.Rom.{Rom, read, write, update, commit}
use planetopia_nodes.Eeprom.Manager.{
  Manager, new, set_dev_mode, flush_if_dirty, force_flush, save_master_flag, load_master_flag,
  save_dev_flag, save_adapter_type, save_reboot_count, save_reboot_reason, save_enrolled_flag,
  save_tx_power_preset, save_node_id, clear_range, load_reboot_count,
}
use planetopia_nodes.Eeprom.Records.{
  save_mesh_key, save_peer_list, clear_peer_list, save_boot_epoch, save_mac, clear_mac,
}
use planetopia_nodes.Eeprom.Keypair.{save_keypair}
use planetopia_nodes.Eeprom.Init.{init}
use planetopia_nodes.Eeprom.Calls.{
  Op, inits, clears_all, saves_reboot_reason, saves_reboot_count, step, run,
}
use planetopia_nodes.Eeprom.Isolation.{footprint, IsSized, Outside, read-step-Outside}
use planetopia_nodes.Eeprom.RoundTrips.{IsWritable}
use planetopia_nodes.Eeprom.Durability.{as_flash, read-validate_reboot, migrate-current}
use planetopia_nodes.Mesh.Types.{Mesh}
use planetopia_nodes.Mesh.BootEpoch.{IsRadio}
use planetopia_nodes.Mesh.Startup
use planetopia_nodes.Hardware.Pins.{is_valid_output_pin}
use planetopia_nodes.Main.App.{App, Device}
use planetopia_nodes.Main.Boot.{
  display_fails, Board, Outcome, halts_watchdog, halts_no_led, restarts, hangs, runs, is_watchdog,
  record_reset, start_error_core, write_defaults, start_node, choose_adapter, start_adapter,
  take_role, pins_ok, set_up, setup,
}
use planetopia_nodes.Main.Calls.{
  AllStart, ReachesBoot, write_defaults-ReachesBoot, init-ReachesBoot,
}
use planetopia_nodes.Main.Rounds.{Inputs}
use planetopia_nodes.Main.Loop.{toggle_role}

-- A started manager whose master flag holds `k`.
record Holds (k : ℕ) (m : Manager) : Type 0 where
  started : m.is_initialized ≡ true
  flag : read m.rom 0 ≡ k

step_started :
    (m : Manager) (o : Op) → Outside 0 (footprint o) → (step m o).is_initialized ≡ m.is_initialized
unfolding step set_dev_mode flush_if_dirty force_flush save_master_flag save_dev_flag
    save_enrolled_flag save_adapter_type save_reboot_count save_reboot_reason save_node_id
    save_boot_epoch save_tx_power_preset save_mesh_key save_peer_list save_keypair save_mac
    clear_mac clear_peer_list clear_range
step_started m (inits ok) s = absurd (omega arith)
step_started m clears_all s = absurd (omega arith)
step_started m _ s = ground arith

module _ (k : ℕ) where
  step-Holds :
      (m : Manager) (o : Op) → IsSized o → Outside 0 (footprint o) → Holds k m → Holds k (step m o)
  step-Holds m o z s h = record {
    started = step_started m o s ∙ h.started;
    flag = read-step-Outside m o 0 z (omega arith) s ∙ h.flag;
  }

  run-Holds : (m : Manager) (os : List Op) → AllStart os → Holds k m → Holds k (run m os)
  unfolding run
  run-Holds m [] s h = h
  run-Holds m (o ∷ os) (s, ss) h = run-Holds (step m o) os ss (step-Holds m o s.0.0 s.1 h)

  reached-Holds : (m m' : Manager) → ReachesBoot m m' → Holds k m → Holds k m'
  reached-Holds m m' (os, s, e) h = subst (Holds k) e (run-Holds m os s h)

  -- A node that runs in production mode has the role of the flag.
  abbrev pub HasRole : Outcome → Type 0
  HasRole (halts_watchdog m) = Unit
  HasRole (halts_no_led m) = Unit
  HasRole (restarts m) = Unit
  HasRole (hangs m) = Unit
  HasRole (runs app) = app.is_dev_mode ≡ false → app.mesh.is_master ≡ (k == 1)

  role_if : (t : Bool) (x y : Outcome) → HasRole x → HasRole y → HasRole (if t then x else y)
  role_if true x y h l = h
  role_if false x y h l = l

  reset-Holds : (b : Board) (m : Manager) → Holds k m → Holds k (record_reset b m).1
  unfolding record_reset step
  reset-Holds b m h =
      let m₁ = save_reboot_reason m b.reason in
      let h₁ = step-Holds m (saves_reboot_reason b.reason) tt (omega arith) h in
      let counted : (n : ℕ) → Holds k (save_reboot_count m₁ n) =
        λ n. step-Holds m₁ (saves_reboot_count n) tt (omega arith) h₁ in
      elim (Bool-cases (is_watchdog b.cause)) [
        | inl e ↦ rw e (counted ((load_reboot_count m₁ + 1) % 256))
        | inr e ↦ rw e (counted 0)
      ]

  taken :
      (is_dev : Bool) (d : Device) (c : ErrorCore) (mesh : Mesh)
      → Holds k mesh.eeprom
      → HasRole (runs (take_role is_dev d c mesh))
  unfolding take_role load_master_flag
  taken is_dev d c mesh h e = ground (arith, h.started, h.flag)

  node-HasRole :
      (b : Board) (core : ErrorCore) (is_dev : Bool) (m : Manager)
      → IsRadio b.radio
      → Holds k m
      → HasRole (start_node b core is_dev m)
  unfolding start_node Startup.new
  node-HasRole b core is_dev m r h = elim (Option-cases (start_adapter (choose_adapter is_dev m))) [
    | inl nothing ↦ rw (nothing, start_node) tt
    | inr (device, made) ↦
        let start = Startup.new Config.dual_master_mode b.mesh_key m in
        let (ok, power, mesh) = Startup.init b.env b.radio start in
        let h' = reached-Holds m mesh.eeprom (init-ReachesBoot b.env b.radio start r) h in
        rw (made, start_node)
          (role_if ok (runs (take_role is_dev device core mesh)) (hangs mesh.eeprom)
            (taken is_dev device core mesh h') tt)
  ]

  set_up-HasRole : (b : Board) (m : Manager) → IsRadio b.radio → Holds k m → HasRole (set_up b m)
  unfolding set_up
  set_up-HasRole b m r h =
      let (halts, m₁) = record_reset b m in
      let (core, restarted) = start_error_core b in
      let (is_dev, m₂) = write_defaults b m₁ in
      let node = start_node b core is_dev m₂ in
      let later = (if restarted || not pins_ok then restarts m₁ else node) in
      let shown = (if display_fails b then restarts m₁ else later) in
      let lit = (if not (is_valid_output_pin Config.red_led_pin) then halts_no_led m₁ else shown) in
      role_if halts (halts_watchdog m₁) lit tt (
        role_if (not (is_valid_output_pin Config.red_led_pin)) (halts_no_led m₁) shown tt (
          role_if (display_fails b) (restarts m₁) later tt (
            role_if (restarted || not pins_ok) (restarts m₁) node tt (
              node-HasRole b core is_dev m₂ r
                (reached-Holds m₁ m₂ (write_defaults-ReachesBoot b m₁) (reset-Holds b m h))))))

started_flag :
    (r : Rom)
    → read (as_flash r) 494 ≡ 3
    → Holds (read (as_flash r) 0) (init (new (as_flash r)) true).0
unfolding init new
started_flag r v = record {
  started = refl;
  flag = rw (v, migrate-current) (read-validate_reboot (as_flash r) 0 (omega arith) (omega arith));
}

begun-HasRole :
    (ok : Bool) (b : Board) (r : Rom)
    → read (as_flash r) 494 ≡ 3
    → IsRadio b.radio
    → let (m, done, faults) = init (new (as_flash r)) ok in
      HasRole (read (as_flash r) 0) (if done then set_up b m else restarts m)
unfolding init new
begun-HasRole true b r v h =
    set_up-HasRole (read (as_flash r) 0) b (init (new (as_flash r)) true).0 h (started_flag r v)
begun-HasRole false b r v h = tt

pub setup-HasRole :
    (b : Board) (r : Rom)
    → read (as_flash r) 494 ≡ 3
    → IsRadio b.radio
    → HasRole (read (as_flash r) 0) (setup b (as_flash r))
unfolding setup
setup-HasRole b r v h = begun-HasRole b.begin_ok b r v h

-- A master flag that is saved and flushed.
pub flushed :
    (m : Manager) (f : Bool) (now : ℕ)
    → IsWritable m
    → read m.rom 494 ≡ 3
    → let r = (force_flush (save_master_flag m f) now).rom in
      (read (as_flash r) 494 ≡ 3) × (read (as_flash r) 0 ≡ (if f then 1 else 0))
unfolding force_flush save_master_flag commit read write update
flushed m f now w v = ground (arith, w.started, w.production)

pub stored :
    (i : Inputs) (a : App)
    → a.is_dev_mode ≡ false
    → (toggle_role i a).app.mesh.eeprom
      ≡ force_flush
          (save_master_flag a.mesh.eeprom (not (load_master_flag a.mesh.eeprom)))
          i.flushed_at
unfolding toggle_role
stored i a d = ground arith

pub bit_set : (f : Bool) → ((if f then 1 else 0) == 1) ≡ f
bit_set true = refl
bit_set false = refl
