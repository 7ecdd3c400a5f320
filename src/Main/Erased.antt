-- ===== src/Main/Erased.antt =====
-- The starts of a node in production mode whose EEPROM was never written: its adapter type is unset.
use planetopia_nodes.Shared.{
  ℕ, ◌+◌, ◌%◌, ◌≡◌, refl, sym, ap, subst, ◌∙◌, ◌≢◌, inl, inr, Bool, true, false, not, ◌||◌, none,
  ◌++◌, arith, ◌==◌, if◌then◌else◌, Bool-cases,
}
use planetopia_nodes.Config
use planetopia_nodes.Errors.Core.{ErrorCore}
use planetopia_nodes.Eeprom.Rom.{Rom, read}
use planetopia_nodes.Eeprom.Manager.{
  Manager, new, set_dev_mode, load_dev_flag, save_reboot_reason, load_reboot_count,
  save_reboot_count,
}
use planetopia_nodes.Eeprom.Records.{has_peers, save_peer_list}
use planetopia_nodes.Eeprom.Init.{validate_reboot, migrate, init}
use planetopia_nodes.Eeprom.Durability.{
  as_flash, read-validate_reboot, committed-validate_reboot, migrate-current,
}
use planetopia_nodes.Eeprom.Migration.{read-stamp_version}
use planetopia_nodes.Adapter.Configuration.{erased_node_has_no_adapter}
use planetopia_nodes.Adapter.Factory.{initialize_defaults_if_unset, create_from_eeprom}
use planetopia_nodes.Main.Boot.{
  display_fails, Board, Outcome, halts_watchdog, halts_no_led, restarts, hangs, runs, is_watchdog,
  record_reset, start_error_core, peers_memory, write_defaults, start_node, choose_adapter,
  start_adapter, pins_ok, set_up, setup,
}
use planetopia_nodes.Hardware.Pins.{is_valid_output_pin}
use planetopia_nodes.Main.Life.{Life, here, boots, Ends}
use planetopia_nodes.Main.Blank.{
  IsErased, IsBlank, quiet-IsBlank, reason-IsQuiet, count-IsQuiet, peers-IsQuiet, mode-IsQuiet,
}

-- The factory finds type 0, for which it has no adapter, and does not set the default.
no_default : (m : Manager) → IsBlank m → initialize_defaults_if_unset false m ≡ m
no_default m u = (erased_node_has_no_adapter m u.started u.type_byte).0

no_adapter : (m : Manager) → IsBlank m → start_adapter (choose_adapter false m) ≡ none
unfolding choose_adapter start_adapter
no_adapter m u =
    ap (λ k. start_adapter (create_from_eeprom false k)) (sym (no_default m u))
    ∙ ap start_adapter (erased_node_has_no_adapter m u.started u.type_byte).1

production : (m : Manager) → IsBlank m → load_dev_flag m ≡ false
unfolding load_dev_flag
production m u = ground (arith, u.dev_byte)

abbrev AgreesOn : ℕ → Rom → Rom → Type 0
AgreesOn x q r = read q x ≡ read r x

stamped : (q : Rom) (x : ℕ) → read (migrate 255 q) x ≡ (if x == 494 then 3 else read q x)
unfolding migrate
stamped q x = read-stamp_version q x

migrated :
    (r : Rom) (x : ℕ)
    → IsErased r
    → x ≢ 494
    → AgreesOn x (migrate (read (as_flash r) 494) (as_flash r)) (as_flash r)
migrated r x h n = elim h.version [
  | inl v ↦ rw (v, migrate-current) refl
  | inr v ↦ rw v (ground (arith, stamped (as_flash r) x))
]

migrated_version :
    (r : Rom) → IsErased r → read (migrate (read (as_flash r) 494) (as_flash r)) 494 ≡ 3
migrated_version r h = elim h.version [
  | inl v ↦ rw (v, migrate-current) v
  | inr v ↦ rw v (stamped (as_flash r) 494)
]

started-IsBlank : (r : Rom) → IsErased r → IsBlank (init (new (as_flash r)) true).0
unfolding init new read
started-IsBlank r h =
    let q = migrate (read (as_flash r) 494) (as_flash r) in
    let kind : read (validate_reboot q) 8 ≡ 255 =
      read-validate_reboot q 8 (omega arith) (omega arith)
      ∙ migrated r 8 h (omega arith)
      ∙ h.type_byte in
    let dev : read (validate_reboot q) 1 ≡ 255 =
      read-validate_reboot q 1 (omega arith) (omega arith)
      ∙ migrated r 1 h (omega arith)
      ∙ h.dev_byte in
    let version : read (validate_reboot q) 494 ≡ 3 =
      read-validate_reboot q 494 (omega arith) (omega arith) ∙ migrated_version r h in
    let flash = committed-validate_reboot q in
    record {
      started = refl;
      type_byte = kind;
      dev_byte = dev;
      flash = record {
        version = inl (ap (λ g. g 494) flash ∙ version);
        type_byte = ap (λ g. g 8) flash ∙ kind;
        dev_byte = ap (λ g. g 1) flash ∙ dev;
      };
    }

-- What is left behind by a start that does not come up.
abbrev IsDown : Outcome → Type 0
IsDown (halts_watchdog m) = IsErased m.rom
IsDown (halts_no_led m) = IsErased m.rom
IsDown (restarts m) = IsErased m.rom
IsDown (hangs m) = IsErased m.rom
IsDown (runs app) = ⊥

IsDown-if : (t : Bool) (x y : Outcome) → IsDown x → IsDown y → IsDown (if t then x else y)
IsDown-if true x y h k = h
IsDown-if false x y h k = k

record_reset-IsBlank : (b : Board) (m : Manager) → IsBlank m → IsBlank (record_reset b m).1
unfolding record_reset
record_reset-IsBlank b m u =
    let m₁ = save_reboot_reason m b.reason in
    let u₁ = quiet-IsBlank m m₁ (reason-IsQuiet m b.reason) u in
    let counted : (n : ℕ) → IsBlank (save_reboot_count m₁ n) =
      λ n. quiet-IsBlank m₁ (save_reboot_count m₁ n) (count-IsQuiet m₁ n) u₁ in
    elim (Bool-cases (is_watchdog b.cause)) [
      | inl e ↦ rw e (counted ((load_reboot_count m₁ + 1) % 256))
      | inr e ↦ rw e (counted 0)
    ]

abbrev with_peers : Board → Bool → Manager → Manager
with_peers b found m =
    if not found
    then save_peer_list m (peers_memory Config.default_peers ++ b.behind_peers)
        Config.num_default_peers
    else m

with_peers-IsBlank :
    (b : Board) (found : Bool) (m : Manager) → IsBlank m → IsBlank (with_peers b found m)
with_peers-IsBlank b true m u = u
with_peers-IsBlank b false m u = quiet-IsBlank m _ (peers-IsQuiet m _ _) u

node-IsDown :
    (b : Board) (core : ErrorCore) (m : Manager)
    → IsBlank m
    → let (is_dev, m₁) = write_defaults b m in IsDown (start_node b core is_dev m₁)
unfolding write_defaults start_node
node-IsDown b core m u =
    let m₁ = set_dev_mode m false in
    let u₁ = quiet-IsBlank m m₁ (mode-IsQuiet m false) u in
    let m₂ = with_peers b (has_peers m₁) m₁ in
    let u₂ = with_peers-IsBlank b (has_peers m₁) m₁ u₁ in
    rw (production m u) (rw (no_default m₂ u₂) (rw (no_adapter m₂ u₂, start_node) u₂.flash))

set_up-IsDown : (b : Board) (m : Manager) → IsBlank m → IsDown (set_up b m)
unfolding set_up
set_up-IsDown b m u =
    let m₁ = (record_reset b m).1 in
    let u₁ = record_reset-IsBlank b m u in
    let (core, restarted) = start_error_core b in
    let (is_dev, m₂) = write_defaults b m₁ in
    let node = start_node b core is_dev m₂ in
    let later = (if restarted || not pins_ok then restarts m₁ else node) in
    let shown = (if display_fails b then restarts m₁ else later) in
    let lit = (if not (is_valid_output_pin Config.red_led_pin) then halts_no_led m₁ else shown) in
    IsDown-if (record_reset b m).0 (halts_watchdog m₁) lit u₁.flash (
      IsDown-if (not (is_valid_output_pin Config.red_led_pin)) (halts_no_led m₁) shown u₁.flash (
        IsDown-if (display_fails b) (restarts m₁) later u₁.flash (
          IsDown-if (restarted || not pins_ok) (restarts m₁) node u₁.flash
            (node-IsDown b core m₁ u₁))))

begun-IsDown :
    (ok : Bool) (b : Board) (r : Rom)
    → IsErased r
    → let (m, done, faults) = init (new (as_flash r)) ok in
      IsDown (if done then set_up b m else restarts m)
unfolding init new
begun-IsDown true b r h = set_up-IsDown b (init (new (as_flash r)) true).0 (started-IsBlank r h)
begun-IsDown false b r h = record {
  version = h.version;
  type_byte = h.type_byte;
  dev_byte = h.dev_byte;
}

setup-IsDown : (b : Board) (r : Rom) → IsErased r → IsDown (setup b (as_flash r))
unfolding setup
setup-IsDown b r h = begun-IsDown b.begin_ok b r h

abbrev pub has_come_up : Outcome → Bool
has_come_up (runs app) = true
has_come_up _ = false

down_stays : (o : Outcome) → IsDown o → has_come_up o ≡ false
down_stays (halts_watchdog m) s = refl
down_stays (halts_no_led m) s = refl
down_stays (restarts m) s = refl
down_stays (hangs m) s = refl
down_stays (runs app) s = absurd s

Ends-IsErased : (o : Outcome) (m : Manager) → IsDown o → Ends o m → IsErased m.rom
Ends-IsErased (halts_watchdog k) m s e = subst (λ x. IsErased x.rom) (sym e) s
Ends-IsErased (halts_no_led k) m s e = subst (λ x. IsErased x.rom) (sym e) s
Ends-IsErased (restarts k) m s e = subst (λ x. IsErased x.rom) (sym e) s
Ends-IsErased (hangs k) m s e = subst (λ x. IsErased x.rom) (sym e) s
Ends-IsErased (runs app) m s e = absurd s

Life-IsErased : {f g : Rom} → IsErased f → Life f g → IsErased g
Life-IsErased c here = c
Life-IsErased c (boots {g} b m l h e) =
    Ends-IsErased (setup b (as_flash g)) m (setup-IsDown b g (Life-IsErased c l)) e

-- A node that starts with an erased adapter type and developer flag, on the current layout or without
-- a version, never comes up, however often it is started and for whatever reasons: the factory has no
-- adapter for it, which restarts the chip before anything that setup has written is committed.
pub erased_node_never_runs :
    (f g : Rom) (b : Board) → IsErased f → Life f g → has_come_up (setup b (as_flash g)) ≡ false
erased_node_never_runs f g b c l =
    down_stays (setup b (as_flash g)) (setup-IsDown b g (Life-IsErased c l))
