-- ===== src/Main/Watchdog.antt =====
-- The halt of setup in a watchdog loop, over any number of starts of a node.
use planetopia_nodes.Shared.{
  ℕ, ◌+◌, ◌%◌, ◌≡◌, refl, sym, subst, ◌∙◌, inl, inr, Bool, true, false, not, ◌||◌, arith,
  if◌then◌else◌, Bool-cases, Option-cases,
}
use planetopia_nodes.Errors.Core.{ErrorCore}
use planetopia_nodes.Errors.Core
use planetopia_nodes.Errors.Reporting
use planetopia_nodes.Eeprom.Rom.{Rom}
use planetopia_nodes.Eeprom.Manager.{
  Manager, new, save_reboot_reason, load_reboot_count, save_reboot_count,
}
use planetopia_nodes.Eeprom.Init.{init}
use planetopia_nodes.Eeprom.Calls.{saves_reboot_reason, step}
use planetopia_nodes.Eeprom.Durability.{as_flash}
use planetopia_nodes.Mesh.Startup
use planetopia_nodes.Config
use planetopia_nodes.Errors.Core.{ErrorCore}
use planetopia_nodes.Mesh.BootEpoch.{IsRadio}
use planetopia_nodes.Main.Boot.{
  display_fails, Board, Outcome, halts_watchdog, halts_no_led, restarts, hangs, runs, is_watchdog,
  record_reset, start_error_core, write_defaults, start_node, choose_adapter, start_adapter,
  take_role, set_up, setup, pins_ok,
}
use planetopia_nodes.Hardware.Pins.{is_valid_output_pin}
use planetopia_nodes.Mesh.Startup
use planetopia_nodes.Config
use planetopia_nodes.Main.Calls.{
  IsUncounted, Reaches-IsUncounted, ReachesBoot-Reaches, step-IsUncounted,
  write_defaults-ReachesBoot, init-ReachesBoot,
}
use planetopia_nodes.Main.Life.{
  here, boots, IsClean, Ends, Life, has_halted, IsSound, clean, started, flash_at-save_reboot_count,
  zero-IsUncounted,
}

module _ (b : Board) (m : Manager) (u : IsUncounted m) where
  reason-IsUncounted : IsUncounted (save_reboot_reason m b.reason)
  unfolding step
  reason-IsUncounted = step-IsUncounted m (saves_reboot_reason b.reason) (omega arith) u

  -- The count is at most 1 then.
  record_reset_goes_on : (record_reset b m).0 ≡ false
  unfolding record_reset load_reboot_count
  record_reset_goes_on = ground (arith, reason-IsUncounted.count)

  counted-IsClean : (n : ℕ) → IsClean (save_reboot_count (save_reboot_reason m b.reason) n).rom
  counted-IsClean n =
      let m₁ = save_reboot_reason m b.reason in
      (
        inl (flash_at-save_reboot_count m₁ n 494 ∙ reason-IsUncounted.flash_version),
        inl (flash_at-save_reboot_count m₁ n 413 ∙ reason-IsUncounted.flash_count),
      )

  -- What counts a reset stays in the buffer.
  record_reset-IsClean : IsClean (record_reset b m).1.rom
  unfolding record_reset
  record_reset-IsClean = elim (Bool-cases (is_watchdog b.cause)) [
    | inl e ↦ rw e (counted-IsClean ((load_reboot_count (save_reboot_reason m b.reason) + 1) % 256))
    | inr e ↦ rw e (counted-IsClean 0)
  ]

  record_reset-IsUncounted : is_watchdog b.cause ≡ false → IsUncounted (record_reset b m).1
  unfolding record_reset
  record_reset-IsUncounted e =
      rw e (zero-IsUncounted (save_reboot_reason m b.reason) reason-IsUncounted)

watchdog_restarts : (b : Board) → is_watchdog b.cause ≡ true → (start_error_core b).1 ≡ true
unfolding start_error_core Core.init Reporting.restarts
watchdog_restarts b e = ground arith

IsSound-if : (t : Bool) (x y : Outcome) → IsSound x → IsSound y → IsSound (if t then x else y)
IsSound-if true x y h k = h
IsSound-if false x y h k = k

start_node-IsSound :
    (b : Board) (core : ErrorCore) (is_dev : Bool) (m : Manager)
    → IsRadio b.radio
    → IsUncounted m
    → IsSound (start_node b core is_dev m)
unfolding start_node take_role Startup.new
start_node-IsSound b core is_dev m h u =
    elim (Option-cases (start_adapter (choose_adapter is_dev m))) [
      | inl nothing ↦ rw (nothing, start_node) (clean m u)
      | inr (device, made) ↦
          let (ok, power, mesh) =
            Startup.init b.env b.radio (Startup.new Config.dual_master_mode b.mesh_key m) in
          let u' =
            Reaches-IsUncounted m mesh.eeprom
              (ReachesBoot-Reaches m mesh.eeprom (
                init-ReachesBoot b.env b.radio (Startup.new Config.dual_master_mode b.mesh_key m)
                  h))
              u in
          rw (made, start_node)
            (IsSound-if ok (runs (take_role is_dev device core mesh)) (hangs mesh.eeprom) u'
              (clean mesh.eeprom u'))
    ]

set_up-IsSound : (b : Board) (m : Manager) → IsRadio b.radio → IsUncounted m → IsSound (set_up b m)
unfolding set_up
set_up-IsSound b m h u =
    let m₁ = (record_reset b m).1 in
    let (core, restarted) = start_error_core b in
    let (is_dev, m₂) = write_defaults b m₁ in
    let c = record_reset-IsClean b m u in
    let node = start_node b core is_dev m₂ in
    let later = (if restarted || not pins_ok then restarts m₁ else node) in
    let shown = (if display_fails b then restarts m₁ else later) in
    let last : IsSound later = elim (Bool-cases (is_watchdog b.cause)) [
      | inl e ↦ rw (watchdog_restarts b e) c
      | inr e ↦ IsSound-if (restarted || not pins_ok) (restarts m₁) node c (
          start_node-IsSound b core is_dev m₂ h (
            Reaches-IsUncounted m₁ m₂ (ReachesBoot-Reaches m₁ m₂ (write_defaults-ReachesBoot b m₁))
              (record_reset-IsUncounted b m u e)))
    ] in
    rw (record_reset_goes_on b m u) (
      IsSound-if (not (is_valid_output_pin Config.red_led_pin)) (halts_no_led m₁) shown c
        (IsSound-if (display_fails b) (restarts m₁) later c last))

-- With the two results of EEPROM.begin.
begun-IsSound :
    (ok : Bool) (b : Board) (r : Rom)
    → IsRadio b.radio
    → IsClean r
    → let (m, done, faults) = init (new (as_flash r)) ok in
      IsSound (if done then set_up b m else restarts m)
unfolding init new
begun-IsSound true b r h c = set_up-IsSound b (init (new (as_flash r)) true).0 h (started r c)
begun-IsSound false b r h c = c

setup-IsSound : (b : Board) (r : Rom) → IsRadio b.radio → IsClean r → IsSound (setup b (as_flash r))
unfolding setup
setup-IsSound b r h c = begun-IsSound b.begin_ok b r h c

sound_goes_on : (o : Outcome) → IsSound o → has_halted o ≡ false
sound_goes_on (halts_watchdog m) s = absurd s
sound_goes_on (halts_no_led m) s = refl
sound_goes_on (restarts m) s = refl
sound_goes_on (hangs m) s = refl
sound_goes_on (runs app) s = refl

Ends-IsClean : (o : Outcome) (m : Manager) → IsSound o → Ends o m → IsClean m.rom
Ends-IsClean (halts_watchdog k) m s e = absurd s
Ends-IsClean (halts_no_led k) m s e = subst (λ x. IsClean x.rom) (sym e) s
Ends-IsClean (restarts k) m s e = subst (λ x. IsClean x.rom) (sym e) s
Ends-IsClean (hangs k) m s e = subst (λ x. IsClean x.rom) (sym e) s
Ends-IsClean (runs app) m s e = clean m (Reaches-IsUncounted app.mesh.eeprom m e s)

Life-IsClean : {f g : Rom} → IsClean f → Life f g → IsClean g
Life-IsClean c here = c
Life-IsClean c (boots {g} b m l h e) =
    Ends-IsClean (setup b (as_flash g)) m (setup-IsSound b g h (Life-IsClean c l)) e

-- Whatever the reasons of its resets are and whatever its watchdog does, a node that starts from a flash
-- that counts no resets never comes to the halt of setup for a watchdog loop: the restart of ErrorCore
-- behind a watchdog's reset loses the count before it is committed. Between the starts a running node
-- makes no call that starts the manager again, saves the reboot count or wipes the EEPROM, and a keypair
-- that a start generates has 32 bytes each.
pub watchdog_halt_unreachable :
    (f g : Rom) (b : Board)
    → IsClean f
    → Life f g
    → IsRadio b.radio
    → has_halted (setup b (as_flash g)) ≡ false
watchdog_halt_unreachable f g b c l h =
    sound_goes_on (setup b (as_flash g)) (setup-IsSound b g h (Life-IsClean c l))
