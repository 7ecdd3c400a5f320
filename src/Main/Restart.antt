-- ===== src/Main/Restart.antt =====
-- The restart behind the config button, on a node that has what setup needs.
use planetopia_nodes.Shared.{
  ℕ, ◌<◌, ◌≡◌, refl, ap, subst, ◌∙◌, ◌≢◌, Bool, true, false, not, arith, ◌==◌, if◌then◌else◌,
}
use planetopia_nodes.Eeprom.Rom.{Rom, read, write, update, commit}
use planetopia_nodes.Eeprom.Manager.{Manager, new, force_flush, save_master_flag, load_master_flag}
use planetopia_nodes.Eeprom.Init.{init}
use planetopia_nodes.Eeprom.RoundTrips.{IsWritable}
use planetopia_nodes.Eeprom.Durability.{as_flash, read-validate_reboot, migrate-current}
use planetopia_nodes.Mesh.BootEpoch.{IsRadio}
use planetopia_nodes.Main.App.{App}
use planetopia_nodes.Main.Boot.{Board, runs, restarts, set_up, setup}
use planetopia_nodes.Main.Rounds.{Inputs}
use planetopia_nodes.Main.Loop.{toggle_role}
use planetopia_nodes.Main.Toggle.{HasRole, setup-HasRole, flushed, stored, bit_set}
use planetopia_nodes.Main.Provisioned.{IsProvisioned, IsReady, set_up_up}

-- A flash of the current layout that names a PIR adapter and no developer mode.
record IsStored (f : Rom) : Type 0 where
  version : read (as_flash f) 494 ≡ 3
  type_byte : read (as_flash f) 8 ≡ 2
  dev_byte : (read (as_flash f) 1 == 1) ≡ false

provisioned : (f : Rom) → IsStored f → IsProvisioned (init (new (as_flash f)) true).0
unfolding init new
provisioned f s =
    rw (s.version, migrate-current)
      (record {
        started = refl;
        type_byte = read-validate_reboot (as_flash f) 8 (omega arith) (omega arith) ∙ s.type_byte;
        dev_byte =
            ap (λ n. n == 1) (read-validate_reboot (as_flash f) 1 (omega arith) (omega arith))
            ∙ s.dev_byte;
      })

begun :
    (ok : Bool) (b : Board) (f : Rom)
    → ok ≡ true
    → IsReady b
    → IsStored f
    → let (m, done, faults) = init (new (as_flash f)) ok in
      (app : App) × ((if done then set_up b m else restarts m) ≡ runs app)
      × (app.is_dev_mode ≡ false)
unfolding init new
begun true b f e r s = set_up_up b r (init (new (as_flash f)) true).0 (provisioned f s)
begun false b f e r s = cc

setup_up :
    (b : Board) (f : Rom)
    → IsReady b
    → IsStored f
    → (app : App) × (setup b (as_flash f) ≡ runs app) × (app.is_dev_mode ≡ false)
unfolding setup
setup_up b f r s = begun b.begin_ok b f r.eeprom r s

-- What the button leaves of the other bytes.
flushed_others :
    (m : Manager) (f : Bool) (now x : ℕ)
    → IsWritable m
    → x ≢ 0
    → x < 512
    → read (as_flash (force_flush (save_master_flag m f) now).rom) x ≡ read m.rom x
unfolding force_flush save_master_flag commit read write update
flushed_others m f now x w n l = ground (arith, w.started, w.production)

-- The config button on a node in production mode whose EEPROM is started, writable and of the current
-- layout, and names a PIR adapter and no developer mode: behind the restart, where EEPROM, display and
-- radio work, setup brings the node up with the other role.
pub toggled_role_survives :
    (i : Inputs) (a : App) (b : Board)
    → a.is_dev_mode ≡ false
    → IsWritable a.mesh.eeprom
    → read a.mesh.eeprom.rom 494 ≡ 3
    → read a.mesh.eeprom.rom 8 ≡ 2
    → (read a.mesh.eeprom.rom 1 == 1) ≡ false
    → IsReady b
    → IsRadio b.radio
    → (app : App) × (setup b (as_flash (toggle_role i a).app.mesh.eeprom.rom) ≡ runs app)
      × (app.mesh.is_master ≡ not (load_master_flag a.mesh.eeprom))
toggled_role_survives i a b d w v t n r h =
    let m = a.mesh.eeprom in
    let f = not (load_master_flag m) in
    let flash = (toggle_role i a).app.mesh.eeprom.rom in
    let e = ap (λ (k : Manager). k.rom) (stored i a d) in
    let others : (x : ℕ) → x ≢ 0 → x < 512 → read (as_flash flash) x ≡ read m.rom x =
      λ x q l. ap (λ k. read (as_flash k) x) e ∙ flushed_others m f i.flushed_at x w q l in
    let flag : read (as_flash flash) 0 ≡ (if f then 1 else 0) =
      ap (λ k. read (as_flash k) 0) e ∙ (flushed m f i.flushed_at w v).1 in
    let version = others 494 (omega arith) (omega arith) ∙ v in
    let (app, up, mode) = setup_up b flash r (record {
      version = version;
      type_byte = others 8 (omega arith) (omega arith) ∙ t;
      dev_byte = ap (λ k. k == 1) (others 1 (omega arith) (omega arith)) ∙ n;
    }) in
    (
      app,
      up,
      subst (HasRole (read (as_flash flash) 0)) up (setup-HasRole b flash version h) mode
          ∙ ap (λ k. k == 1) flag
          ∙ bit_set f,
    )
