-- ===== src/Mesh/BootEpoch.antt =====
-- The boot epoch that Mesh::init counts in the EEPROM, over restarts.
use planetopia_nodes.Shared.{
  ℕ, ◌+◌, ◌%◌, ◌≤◌, ◌<◌, ◌≡◌, refl, sym, ap, subst, ◌∙◌, inl, inr, Bool, arith, Bool-cases,
  Option-cases, length, Bytes,
}
use planetopia_nodes.Config
use planetopia_nodes.Eeprom.Rom.{read}
use planetopia_nodes.Eeprom.Manager.{Manager}
use planetopia_nodes.Eeprom.Records.{
  load_boot_epoch, save_boot_epoch, save_mesh_key, load_known_master_mac,
  load_known_master_mac_secondary,
}
use planetopia_nodes.Eeprom.Keypair.{save_keypair}
use planetopia_nodes.Eeprom.RoundTrips.{IsWritable, load_boot_epoch-save_boot_epoch}
use planetopia_nodes.Eeprom.Durability.{power_cycle, boot_epoch_survives}
use planetopia_nodes.Eeprom.Isolation.{mesh_key-Outside, keypair-Outside}
use planetopia_nodes.Mesh.Types.{Mesh, Env}
use planetopia_nodes.Mesh.Peers.{load_peers_from_eeprom}
use planetopia_nodes.Mesh.Startup.{
  Radio, new, is_unset_key, load_mesh_key_from_eeprom, load_or_generate_keypair, loaded_mesh_key,
  loaded_keypair, with_primary, with_secondary, load_persistent_state, setup_esp_now, next_epoch,
  init,
}

-- The bytes behind the keypair are as they were, and the manager writes as before.
record IsUntouched (e e' : Manager) : Type 0 where
  started : e'.is_initialized ≡ e.is_initialized
  mode : e'.is_dev_mode ≡ e.is_dev_mode
  bytes : (x : ℕ) → 483 ≤ x → x < 512 → read e'.rom x ≡ read e.rom x

untouched : (e : Manager) → IsUntouched e e
untouched e = record { started = refl; mode = refl; bytes = λ x p q. refl }

IsUntouched-trans : (a b c : Manager) → IsUntouched a b → IsUntouched b c → IsUntouched a c
IsUntouched-trans a b c h k = record {
  started = k.started ∙ h.started;
  mode = k.mode ∙ h.mode;
  bytes = λ x p q. k.bytes x p q ∙ h.bytes x p q;
}

mesh_key-IsUntouched : (e : Manager) (key : Bytes) (n : ℕ) → IsUntouched e (save_mesh_key e key n)
unfolding save_mesh_key
mesh_key-IsUntouched e key n = record {
  started = ground arith;
  mode = ground arith;
  bytes = λ x p q. mesh_key-Outside e x key n (inr (omega arith));
}

keypair-IsUntouched :
    (e : Manager) (a b : Bytes) → length a ≡ 32 → length b ≡ 32 → IsUntouched e (save_keypair e a b)
unfolding save_keypair
keypair-IsUntouched e a b ha hb = record {
  started = ground arith;
  mode = ground arith;
  bytes = λ x p q. keypair-Outside e x a b ha hb (inr (omega arith));
}

load_mesh_key-IsUntouched : (m : Mesh) → IsUntouched m.eeprom (load_mesh_key_from_eeprom m).eeprom
unfolding load_mesh_key_from_eeprom
load_mesh_key-IsUntouched m = elim (Bool-cases (is_unset_key (loaded_mesh_key m))) [
  | inl unset ↦ rw unset (mesh_key-IsUntouched m.eeprom Config.default_mesh_key 16)
  | inr found ↦ rw found (untouched m.eeprom)
]

load_keypair-IsUntouched :
    (r : Radio) (m : Mesh)
    → length r.new_keys.0 ≡ 32
    → length r.new_keys.1 ≡ 32
    → IsUntouched m.eeprom (load_or_generate_keypair r m).eeprom
unfolding load_or_generate_keypair
load_keypair-IsUntouched r m ha hb = elim (Bool-cases (loaded_keypair m).0) [
  | inl found ↦ rw found (untouched m.eeprom)
  | inr unset ↦ rw unset (keypair-IsUntouched m.eeprom r.new_keys.0 r.new_keys.1 ha hb)
]

eeprom-with_primary : (m : Mesh) → (with_primary m).eeprom ≡ m.eeprom
eeprom-with_primary m = elim (Option-cases (load_known_master_mac m.eeprom)) [
  | inl e ↦ rw (e, with_primary) refl
  | inr (p, e) ↦ rw (e, with_primary) refl
]

eeprom-with_secondary : (m : Mesh) → (with_secondary m).eeprom ≡ m.eeprom
eeprom-with_secondary m = elim (Option-cases (load_known_master_mac_secondary m.eeprom)) [
  | inl e ↦ rw (e, with_secondary) refl
  | inr (p, e) ↦ rw (e, with_secondary) refl
]

pub eeprom-load_peers : (m : Mesh) → (load_peers_from_eeprom m).eeprom ≡ m.eeprom
unfolding load_peers_from_eeprom
eeprom-load_peers m = refl

pub eeprom-load_persistent_state :
    (r : Radio) (m : Mesh)
    → (load_persistent_state r m).eeprom
      ≡ (load_or_generate_keypair r (load_mesh_key_from_eeprom (load_peers_from_eeprom m))).eeprom
unfolding load_persistent_state
eeprom-load_persistent_state r m =
    let m' = load_or_generate_keypair r (load_mesh_key_from_eeprom (load_peers_from_eeprom m)) in
    elim (Bool-cases (with_primary m').tofu.dual_master_mode) [
      | inl dual ↦ rw dual (eeprom-with_secondary (with_primary m') ∙ eeprom-with_primary m')
      | inr single ↦ rw single (eeprom-with_primary m')
    ]

load_persistent_state-IsUntouched :
    (r : Radio) (m : Mesh)
    → length r.new_keys.0 ≡ 32
    → length r.new_keys.1 ≡ 32
    → IsUntouched m.eeprom (load_persistent_state r m).eeprom
load_persistent_state-IsUntouched r m ha hb =
    let m₁ = load_peers_from_eeprom m in
    let m₂ = load_mesh_key_from_eeprom m₁ in
    subst (IsUntouched m.eeprom) (sym (eeprom-load_persistent_state r m)) (
      subst (λ e. IsUntouched e (load_or_generate_keypair r m₂).eeprom) (eeprom-load_peers m)
        (IsUntouched-trans m₁.eeprom m₂.eeprom (load_or_generate_keypair r m₂).eeprom
          (load_mesh_key-IsUntouched m₁) (load_keypair-IsUntouched r m₂ ha hb)))

-- What init leaves in the EEPROM and takes as its epoch.
pub eeprom-init :
    (env : Env) (r : Radio) (m : Mesh)
    → let e = (load_persistent_state r m).eeprom in
      ((init env r m).2.eeprom ≡ save_boot_epoch e (next_epoch e))
      × ((init env r m).2.boot_epoch ≡ next_epoch e)
unfolding init setup_esp_now
eeprom-init env r m = elim (Bool-cases r.now_ok) [
  | inl up ↦ rw up (refl, refl)
  | inr down ↦ rw down (refl, refl)
]

load_boot_epoch-untouched :
    (e e' : Manager) → IsUntouched e e' → load_boot_epoch e' ≡ load_boot_epoch e
unfolding load_boot_epoch
load_boot_epoch-untouched e e' u = ground (
  arith,
  u.started,
  u.bytes 484 (omega arith) (omega arith),
  u.bytes 485 (omega arith) (omega arith),
  u.bytes 486 (omega arith) (omega arith),
  u.bytes 487 (omega arith) (omega arith),
)

-- A node that starts from what the EEPROM holds.
abbrev pub start : Env → Radio → Bool → Bytes → Manager → Mesh
start env r dual key e = (init env r (new dual key e)).2

-- The sizes of what mbedTLS generates.
pub record IsRadio (r : Radio) : Type 0 where
  pub private_size : length r.new_keys.0 ≡ 32
  pub public_size : length r.new_keys.1 ≡ 32

start-IsUntouched :
    (r : Radio) (dual : Bool) (key : Bytes) (e : Manager)
    → IsRadio r
    → IsUntouched e (load_persistent_state r (new dual key e)).eeprom
unfolding new
start-IsUntouched r dual key e h =
    load_persistent_state-IsUntouched r (new dual key e) h.private_size h.public_size

boot_epoch-start :
    (env : Env) (r : Radio) (dual : Bool) (key : Bytes) (e : Manager)
    → IsRadio r
    → (start env r dual key e).boot_epoch ≡ (load_boot_epoch e + 1) % 4294967296
boot_epoch-start env r dual key e h =
    (eeprom-init env r (new dual key e)).1
    ∙ ap (λ k. (k + 1) % 4294967296)
        (load_boot_epoch-untouched e (load_persistent_state r (new dual key e)).eeprom
          (start-IsUntouched r dual key e h))

stored_epoch :
    (env : Env) (r : Radio) (dual : Bool) (key : Bytes) (e : Manager)
    → IsRadio r
    → IsWritable e
    → read e.rom 494 ≡ 3
    → load_boot_epoch e < 4294967294
    → load_boot_epoch (power_cycle (start env r dual key e).eeprom) ≡ load_boot_epoch e + 1
stored_epoch env r dual key e h w v small =
    let e₁ = (load_persistent_state r (new dual key e)).eeprom in
    let u : IsUntouched e e₁ = start-IsUntouched r dual key e h in
    let w₁ : IsWritable e₁ = record {
      started = u.started ∙ w.started;
      production = u.mode ∙ w.production;
    } in
    let v₁ : read e₁.rom 494 ≡ 3 = u.bytes 494 (omega arith) (omega arith) ∙ v in
    let same : load_boot_epoch e₁ ≡ load_boot_epoch e = load_boot_epoch-untouched e e₁ u in
    ap (λ x. load_boot_epoch (power_cycle x)) (eeprom-init env r (new dual key e)).0
    ∙ boot_epoch_survives e₁ (next_epoch e₁) w₁ v₁
    ∙ load_boot_epoch-save_boot_epoch e₁ (next_epoch e₁) w₁ (omega (arith, same))
    ∙ ground (arith, same)

-- On a started manager, not in developer mode and at the current layout version, with a boot epoch below
-- 2^32 - 2: the node starts with the next epoch, and if it loses its power after that and starts again,
-- with the one after it. A keypair that it generates has 32 bytes each.
pub boot_epoch_advances :
    (env env' : Env) (r r' : Radio) (dual : Bool) (key key' : Bytes) (e : Manager)
    → IsRadio r
    → IsRadio r'
    → IsWritable e
    → read e.rom 494 ≡ 3
    → load_boot_epoch e < 4294967294
    → ((start env r dual key e).boot_epoch ≡ load_boot_epoch e + 1)
      × ((start env' r' dual key' (power_cycle (start env r dual key e).eeprom)).boot_epoch
          ≡ load_boot_epoch e + 2)
boot_epoch_advances env env' r r' dual key key' e h h' w v small = (
  omega (arith, boot_epoch-start env r dual key e h),
  omega (
    arith,
    boot_epoch-start env' r' dual key' (power_cycle (start env r dual key e).eeprom) h',
    stored_epoch env r dual key e h w v small,
  ),
)
