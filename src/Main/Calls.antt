-- ===== src/Main/Calls.antt =====
-- What setup does with the EEPROM behind the reboot tracking, as calls of EEPROM_Manager.
use planetopia_nodes.Shared.{
  ℕ, zero, suc, ◌+◌, ◌-◌, ◌*◌, ◌≡◌, refl, sym, ap, subst, ◌∙◌, ◌⊎◌, inl, inr, Bool, true, false,
  not, ◌&&◌, ◌||◌, List, [], ◌∷◌, ◌++◌, arith, ◌==◌, if◌then◌else◌, Bool-cases, take, Bytes,
}
use planetopia_nodes.Config
use planetopia_nodes.Eeprom.Rom.{Rom, read, write, commit, write_bytes, fill}
use planetopia_nodes.Eeprom.Manager.{
  Manager, set_dev_mode, flush_if_dirty, force_flush, save_master_flag, save_dev_flag,
  save_adapter_type, save_reboot_count, save_reboot_reason, save_enrolled_flag,
  save_tx_power_preset, save_node_id, clear_range, load_adapter_type, load_dev_flag,
}
use planetopia_nodes.Eeprom.Records.{
  save_mesh_key, save_peer_list, clear_peer_list, save_boot_epoch, save_mac, clear_mac, has_peers,
}
use planetopia_nodes.Eeprom.Keypair.{save_keypair}
use planetopia_nodes.Eeprom.Calls.{
  Op, sets_dev_mode, saves_adapter_type, saves_boot_epoch, saves_mesh_key, saves_peer_list,
  saves_keypair, inits, saves_master_flag, saves_dev_flag, saves_reboot_count, saves_reboot_reason,
  saves_node_id, clears_peer_list, clears_all, clears_range, step, run,
}
use planetopia_nodes.Eeprom.Isolation.{footprint, IsSized, Outside, read-step-Outside}
use planetopia_nodes.Eeprom.Durability.{as_flash}
use planetopia_nodes.Adapter.Factory.{initialize_defaults_if_unset, adapter_type_to_eeprom}
use planetopia_nodes.Adapter.Types.{pir_adapter}
use planetopia_nodes.Mesh.Types.{Mesh, Env}
use planetopia_nodes.Mesh.Peers.{load_peers_from_eeprom}
use planetopia_nodes.Mesh.Startup.{
  Radio, is_unset_key, loaded_mesh_key, loaded_keypair, load_mesh_key_from_eeprom,
  load_or_generate_keypair, load_persistent_state, next_epoch, init,
}
use planetopia_nodes.Mesh.BootEpoch.{
  eeprom-load_peers, eeprom-load_persistent_state, eeprom-init, IsRadio,
}
use planetopia_nodes.Main.Boot.{Board, peers_memory, write_defaults}

-- A call that leaves the count of the resets and the layout version alone.
abbrev pub Spares : Op → Type 0
Spares o = IsSized o × Outside 413 (footprint o) × Outside 494 (footprint o)

abbrev pub AllSpare : List Op → Type 0
AllSpare [] = Unit {0}
AllSpare (o ∷ os) = Spares o × AllSpare os

-- A call of setup: it leaves the master flag alone, too.
abbrev pub Starts : Op → Type 0
Starts o = Spares o × Outside 0 (footprint o)

abbrev pub AllStart : List Op → Type 0
AllStart [] = Unit {0}
AllStart (o ∷ os) = Starts o × AllStart os

-- A manager that such calls lead to.
abbrev pub Reaches : Manager → Manager → Type 0
Reaches m m' = (os : List Op) × AllSpare os × (run m os ≡ m')

abbrev pub ReachesBoot : Manager → Manager → Type 0
ReachesBoot m m' = (os : List Op) × AllStart os × (run m os ≡ m')

start-AllSpare : (os : List Op) → AllStart os → AllSpare os
start-AllSpare [] h = tt
start-AllSpare (o ∷ os) (h, hs) = (h.0, start-AllSpare os hs)

pub ReachesBoot-Reaches : (m m' : Manager) → ReachesBoot m m' → Reaches m m'
ReachesBoot-Reaches m m' (os, h, e) = (os, start-AllSpare os h, e)

-- The flash is what was committed.
abbrev pub flash_at : Manager → ℕ → ℕ
flash_at m x = read (as_flash m.rom) x

pub committed-write : (r : Rom) (a v : ℕ) → (write r a v).committed ≡ r.committed
unfolding write
committed-write r a v = ground arith

pub committed-write_bytes :
    (r : Rom) (a : ℕ) (bs : Bytes) → (write_bytes r a bs).committed ≡ r.committed
unfolding write_bytes
committed-write_bytes r a [] = refl
committed-write_bytes r a (b ∷ bs) =
    committed-write_bytes (write r a b) (a + 1) bs ∙ committed-write r a b

pub committed-fill : (r : Rom) (a v n : ℕ) → (fill r a v n).committed ≡ r.committed
unfolding fill
committed-fill r a v zero = refl
committed-fill r a v (suc n) = committed-fill (write r a v) (a + 1) v n ∙ committed-write r a v

-- A call commits the buffer as it is then, or leaves the flash as it was.
committed-step :
    (m : Manager) (o : Op)
    → Spares o
    → ((step m o).rom.committed ≡ m.rom.committed)
      ⊎ ((step m o).rom.committed ≡ (step m o).rom.cells)
unfolding step set_dev_mode flush_if_dirty force_flush save_master_flag save_dev_flag
    save_enrolled_flag save_adapter_type save_reboot_count save_reboot_reason save_node_id
    save_boot_epoch save_tx_power_preset save_mesh_key save_peer_list save_keypair save_mac
    clear_mac clear_peer_list clear_range commit
committed-step m (inits ok) s = absurd (omega arith)
committed-step m clears_all s = absurd (omega arith)
committed-step m (clears_range a b) s = ground (arith, committed-fill m.rom a 255 (b + 1 - a))
committed-step m (saves_peer_list rs n) s =
    let r = fill m.rom 32 255 380 in
    ground (arith, committed-fill m.rom 32 255 380, committed-write_bytes r 32 (take (n * 38) rs))
committed-step m (saves_mesh_key k n) s = ground (arith, committed-write_bytes m.rom 16 (take 16 k))
committed-step m clears_peer_list s = ground (arith, committed-fill m.rom 32 255 380)
committed-step m (saves_master_flag b) s =
    ground (arith, committed-write m.rom 0 (if b then 1 else 0))
committed-step m (saves_dev_flag b) s = ground (arith, committed-write m.rom 1 (if b then 1 else 0))
committed-step m (saves_adapter_type t) s = ground (arith, committed-write m.rom 8 t)
committed-step m (saves_reboot_count t) s = ground (arith, committed-write m.rom 413 t)
committed-step m (saves_reboot_reason t) s = ground (arith, committed-write m.rom 412 t)
committed-step m (saves_node_id t) s = ground (arith, committed-write m.rom 496 t)
committed-step m _ s = ground arith

-- Neither the buffer nor the flash counts a reset, and both are of the current layout.
pub record IsUncounted (m : Manager) : Type 0 where
  pub count : read m.rom 413 ≡ 0
  pub version : read m.rom 494 ≡ 3
  pub flash_count : flash_at m 413 ≡ 0
  pub flash_version : flash_at m 494 ≡ 3

pub step-IsUncounted : (m : Manager) (o : Op) → Spares o → IsUncounted m → IsUncounted (step m o)
unfolding read
step-IsUncounted m o s u =
    let e = read-step-Outside m o 413 s.0 (omega arith) s.1 ∙ u.count in
    let f = read-step-Outside m o 494 s.0 (omega arith) s.2 ∙ u.version in
    elim (committed-step m o s) [
      | inl kept ↦ record {
        count = e;
        version = f;
        flash_count = ap (λ g. g 413) kept ∙ u.flash_count;
        flash_version = ap (λ g. g 494) kept ∙ u.flash_version;
      }
      | inr stored ↦ record {
        count = e;
        version = f;
        flash_count = ap (λ g. g 413) stored ∙ e;
        flash_version = ap (λ g. g 494) stored ∙ f;
      }
    ]

run-IsUncounted :
    (m : Manager) (os : List Op) → AllSpare os → IsUncounted m → IsUncounted (run m os)
unfolding run
run-IsUncounted m [] s u = u
run-IsUncounted m (o ∷ os) (s, ss) u = run-IsUncounted (step m o) os ss (step-IsUncounted m o s u)

pub Reaches-IsUncounted : (m m' : Manager) → Reaches m m' → IsUncounted m → IsUncounted m'
Reaches-IsUncounted m m' (os, s, e) u = subst IsUncounted e (run-IsUncounted m os s u)

pub reach_self : (m : Manager) → ReachesBoot m m
unfolding run
reach_self m = ([], tt, refl)

pub reach_step : (m : Manager) (o : Op) → Starts o → ReachesBoot m (step m o)
unfolding run
reach_step m o s = (o ∷ [], (s, tt), refl)

append-AllStart : (os ps : List Op) → AllStart os → AllStart ps → AllStart (os ++ ps)
append-AllStart [] ps s t = t
append-AllStart (o ∷ os) ps (s, ss) t = (s, append-AllStart os ps ss t)

run-append : (m : Manager) (os ps : List Op) → run m (os ++ ps) ≡ run (run m os) ps
unfolding run
run-append m [] ps = refl
run-append m (o ∷ os) ps = run-append (step m o) os ps

pub ReachesBoot-trans : (a b c : Manager) → ReachesBoot a b → ReachesBoot b c → ReachesBoot a c
ReachesBoot-trans a b c (os, s, e) (ps, t, f) =
    (os ++ ps, append-AllStart os ps s t, run-append a os ps ∙ ap (λ m. run m ps) e ∙ f)

-- A call that is made or not.
reach_if : (t : Bool) (m : Manager) (o : Op) → Starts o → ReachesBoot m (if t then step m o else m)
reach_if true m o s = reach_step m o s
reach_if false m o s = reach_self m

reach_unless :
    (t : Bool) (m : Manager) (o : Op) → Starts o → ReachesBoot m (if t then m else step m o)
reach_unless true m o s = reach_self m
reach_unless false m o s = reach_step m o s

default-ReachesBoot :
    (is_dev : Bool) (m : Manager)
    → ReachesBoot m (if not is_dev then initialize_defaults_if_unset is_dev m else m)
unfolding initialize_defaults_if_unset step
default-ReachesBoot true m = reach_self m
default-ReachesBoot false m =
    reach_if (load_adapter_type m == 255) m
      (saves_adapter_type (adapter_type_to_eeprom pir_adapter)) (omega arith)

pub write_defaults-ReachesBoot : (b : Board) (m : Manager) → ReachesBoot m (write_defaults b m).1
unfolding write_defaults initialize_defaults_if_unset step
write_defaults-ReachesBoot b m =
    let is_dev = Config.dev_mode || load_dev_flag m in
    let m₁ = step m (sets_dev_mode is_dev) in
    let peers =
      saves_peer_list (peers_memory Config.default_peers ++ b.behind_peers)
        Config.num_default_peers in
    let m₂ = (if not is_dev && not (has_peers m₁) then step m₁ peers else m₁) in
    ReachesBoot-trans m m₁ _ (reach_step m (sets_dev_mode is_dev) (omega arith)) (
      ReachesBoot-trans m₁ m₂ _ (reach_if (not is_dev && not (has_peers m₁)) m₁ peers (omega arith))
        (default-ReachesBoot is_dev m₂))

mesh_key-ReachesBoot : (m : Mesh) → ReachesBoot m.eeprom (load_mesh_key_from_eeprom m).eeprom
unfolding load_mesh_key_from_eeprom step
mesh_key-ReachesBoot m = elim (Bool-cases (is_unset_key (loaded_mesh_key m))) [
  | inl unset ↦
      rw unset (reach_step m.eeprom (saves_mesh_key Config.default_mesh_key 16) (omega arith))
  | inr found ↦ rw found (reach_self m.eeprom)
]

keypair-ReachesBoot :
    (r : Radio) (m : Mesh) → IsRadio r → ReachesBoot m.eeprom (load_or_generate_keypair r m).eeprom
unfolding load_or_generate_keypair step
keypair-ReachesBoot r m h = elim (Bool-cases (loaded_keypair m).0) [
  | inl found ↦ rw found (reach_self m.eeprom)
  | inr unset ↦ rw unset (
      reach_step m.eeprom (saves_keypair r.new_keys.0 r.new_keys.1)
        (((h.private_size, h.public_size), omega arith, omega arith), omega arith))
]

pub init-ReachesBoot :
    (env : Env) (r : Radio) (m : Mesh) → IsRadio r → ReachesBoot m.eeprom (init env r m).2.eeprom
unfolding step
init-ReachesBoot env r m h =
    let m₁ = load_peers_from_eeprom m in
    let m₂ = load_mesh_key_from_eeprom m₁ in
    let e = (load_persistent_state r m).eeprom in
    let to_key : ReachesBoot m.eeprom m₂.eeprom =
      subst (λ x. ReachesBoot x m₂.eeprom) (eeprom-load_peers m) (mesh_key-ReachesBoot m₁) in
    let to_state : ReachesBoot m.eeprom e =
      subst (ReachesBoot m.eeprom) (sym (eeprom-load_persistent_state r m))
        (ReachesBoot-trans m.eeprom m₂.eeprom _ to_key (keypair-ReachesBoot r m₂ h)) in
    subst (ReachesBoot m.eeprom) (sym (eeprom-init env r m).0) (
      ReachesBoot-trans m.eeprom e _ to_state
        (reach_step e (saves_boot_epoch (next_epoch e)) (omega arith)))
