-- ===== src/Main/Kept.antt =====
-- The parts of a round of the loop that keep the role, the mode, the buttons and the adapter.
use planetopia_nodes.Shared.{
  ℕ, zero, suc, ◌≡◌, refl, ◌∙◌, inl, inr, some, List, [], ◌∷◌, ◌++◌, arith, if◌then◌else◌,
  Bool-cases, Option-cases,
}
use planetopia_nodes.Eeprom.Manager.{flush_if_dirty}
use planetopia_nodes.Adapter.Dispatch.{on_mesh_data}
use planetopia_nodes.Adapter.Dispatch
use planetopia_nodes.Adapter.Pir
use planetopia_nodes.Mesh.Types.{MeshMessage, Mesh, Env, sends, fails, delivers, relays_enrollment}
use planetopia_nodes.Mesh.Types
use planetopia_nodes.Mesh.Receive.{take_entry}
use planetopia_nodes.Mesh.Sending.{broadcast_master_beacon, transmit}
use planetopia_nodes.Mesh.Beacons.{check_master_timeout}
use planetopia_nodes.Mesh.Delivery.{drain_pending_enrollment}
use planetopia_nodes.Mesh.Loop.{process_entry, dispatch_relay}
use planetopia_nodes.Main.App.{Device, pir, serial, App}
use planetopia_nodes.Main.Rounds.{
  Inputs, green, Run, goes_on, and_then, with_mesh, node_of, line_of, hand_over, perform,
  data_recv_callback, on_radio,
}
use planetopia_nodes.Main.Loop.{
  drain, tick, start_round, flash_dashes, show_identity, identify, tick_on, drain_on,
  ask_enrollment, adapter_loop, first_half,
}
use planetopia_nodes.Main.Role.{
  transmit-KeepsRole, process_entry-KeepsRole, pending-KeepsRole, relay-KeepsRole,
  own_beacon-KeepsRole, timeout-KeepsRole,
}
use planetopia_nodes.Main.ServerRole.{serial_loop-KeepsRole, impl-KeepsRole}

-- The role, the mode, the buttons and the adapter are as they were.
pub record IsKept (a a' : App) : Type 0 where
  pub role : a'.mesh.is_master ≡ a.mesh.is_master
  pub mode : a'.is_dev_mode ≡ a.is_dev_mode
  pub buttons : a'.buttons ≡ a.buttons
  pub device : a'.device ≡ a.device

kept : (a : App) → IsKept a a
kept a = record { role = refl; mode = refl; buttons = refl; device = refl }

pub IsKept-trans : (a b c : App) → IsKept a b → IsKept b c → IsKept a c
IsKept-trans a b c h k = record {
  role = k.role ∙ h.role;
  mode = k.mode ∙ h.mode;
  buttons = k.buttons ∙ h.buttons;
  device = k.device ∙ h.device;
}

and_then-IsKept :
    (a : App) (r : Run) (k : App → Run)
    → IsKept a r.app
    → ((b : App) → IsKept b (k b).app)
    → IsKept a (and_then r k).app
and_then-IsKept a r k h next = elim (Bool-cases r.restarted) [
  | inl stop ↦ rw stop h
  | inr on ↦ rw on (IsKept-trans a r.app (k r.app).app h (next r.app))
]

mesh-IsKept : (a : App) (m : Mesh) → m.is_master ≡ a.mesh.is_master → IsKept a (with_mesh a m)
mesh-IsKept a m h = record { role = h; mode = refl; buttons = refl; device = refl }

module _ (i : Inputs) where
  hand_over-IsKept :
      (env : Env) (a : App) (msg : MeshMessage) (d : Device)
      → IsKept a (hand_over i env a msg d).app
  unfolding hand_over
  hand_over-IsKept env a msg (pir s) = kept a
  hand_over-IsKept env a msg (serial p) =
      mesh-IsKept a _ (impl-KeepsRole (line_of i env a) a.mesh msg)

  perform-IsKept :
      (env : Env) (a : App) (acts : List Dispatch.Action) → IsKept a (perform i env a acts).app
  unfolding perform
  perform-IsKept env a [] = kept a
  perform-IsKept env a (Dispatch.restarts ∷ acts) = kept a
  perform-IsKept env a (Dispatch.fails f ∷ acts) = perform-IsKept env a acts
  perform-IsKept env a (Dispatch.transmits t bytes ∷ acts) =
      let m = (transmit env a.mesh t (some bytes)).0 in
      IsKept-trans a (with_mesh a m) _
        (mesh-IsKept a m (transmit-KeepsRole env a.mesh t (some bytes)))
        (perform-IsKept env (with_mesh a m) acts)
  perform-IsKept env a (Dispatch.passes_on msg ∷ acts) =
      and_then-IsKept a (hand_over i env a msg a.device) (λ b. perform i env b acts)
        (hand_over-IsKept env a msg a.device) (λ b. perform-IsKept env b acts)

  callback-IsKept : (a : App) (msg : MeshMessage) → IsKept a (data_recv_callback i a msg).app
  unfolding data_recv_callback
  callback-IsKept a msg =
      let m = a.mesh in
      let (e, acts) = on_mesh_data (node_of i i.env a) m.eeprom msg in
      let a₁ = with_mesh a (record m { eeprom = e }) in
      and_then-IsKept a (perform i i.env a₁ acts) (λ b. goes_on b (green 2 ∷ []))
        (IsKept-trans a a₁ _ (mesh-IsKept a (record m { eeprom = e }) refl)
          (perform-IsKept i.env a₁ acts))
        (λ b. kept b)

  radio-IsKept : (a : App) (es : List Types.Effect) → IsKept a (on_radio i a es).app
  unfolding on_radio
  radio-IsKept a [] = kept a
  radio-IsKept a (delivers msg ∷ es) =
      and_then-IsKept a (data_recv_callback i a msg) (λ b. on_radio i b es) (callback-IsKept a msg)
        (λ b. radio-IsKept b es)
  radio-IsKept a (relays_enrollment mac key ∷ es) = radio-IsKept a es
  radio-IsKept a (sends mac msg ∷ es) = radio-IsKept a es
  radio-IsKept a (fails f ∷ es) = radio-IsKept a es

  drain-IsKept : (fuel : ℕ) (a : App) → IsKept a (drain fuel i a).app
  unfolding drain
  drain-IsKept zero a = kept a
  drain-IsKept (suc fuel) a = elim (Option-cases (take_entry a.mesh.queue)) [
    | inl e ↦ rw (e, drain) (kept a)
    | inr ((entry, q), e) ↦
        let m = record a.mesh { queue = q } in
        let (m', es) = process_entry i.env m entry in
        rw (e, drain)
          (and_then-IsKept a (on_radio i (with_mesh a m') es) (drain fuel i)
            (IsKept-trans a (with_mesh a m') _
              (mesh-IsKept a m' (process_entry-KeepsRole i.env m entry))
              (radio-IsKept (with_mesh a m') es))
            (drain-IsKept fuel))
  ]

  tick-IsKept : (a : App) → IsKept a (tick i a).app
  unfolding tick
  tick-IsKept a =
      let m = a.mesh in
      let m₁ = record m { eeprom = flush_if_dirty m.eeprom i.env.now i.env.now } in
      let (m₂, es₁) = drain_pending_enrollment i.env m₁ in
      let (m₃, es₂) = dispatch_relay i.env m₂ in
      let (m₄, es₃) : Mesh × List Types.Effect =
        if m₃.is_master then broadcast_master_beacon i.env m₃ else (m₃, []) in
      let beacon : m₄.is_master ≡ m₃.is_master = ground (arith, own_beacon-KeepsRole i.env m₃) in
      IsKept-trans a (with_mesh a m₄) _
        (mesh-IsKept a m₄ (beacon ∙ relay-KeepsRole i.env m₂ ∙ pending-KeepsRole i.env m₁))
        (radio-IsKept (with_mesh a m₄) (es₁ ++ es₂ ++ es₃))

  start-IsKept : (a : App) → IsKept a (start_round a).app
  unfolding start_round
  start-IsKept a = record { role = refl; mode = refl; buttons = refl; device = refl }

  identity-IsKept : (a : App) → IsKept a (show_identity i a).app
  unfolding show_identity flash_dashes
  identity-IsKept a = ground arith

  identify-IsKept : (a : App) → IsKept a (identify i a).app
  unfolding identify
  identify-IsKept a =
      let m = check_master_timeout a.mesh i.timeout_now in
      IsKept-trans a (with_mesh a m) _ (mesh-IsKept a m (timeout-KeepsRole a.mesh i.timeout_now))
        (identity-IsKept (with_mesh a m))

  pub first_half-IsKept : (a : App) → IsKept a (first_half i a).app
  unfolding first_half drain_on tick_on
  first_half-IsKept a = and_then-IsKept a (start_round a) (drain_on i) (start-IsKept a) (λ a₁.
      and_then-IsKept a₁ (drain 8 i a₁) (tick_on i) (drain-IsKept 8 a₁)
        (λ a₂. and_then-IsKept a₂ (tick i a₂) (identify i) (tick-IsKept a₂) identify-IsKept))

  pub ask-IsKept : (a : App) → IsKept a (ask_enrollment i a).app
  unfolding ask_enrollment
  ask-IsKept a = ground arith

  -- The adapter's own loop changes the adapter, but neither the role nor the mode.
  pub adapter_keeps :
      (a : App) (d : Device)
      → let a' = (adapter_loop i a d).app in
        (a'.mesh.is_master ≡ a.mesh.is_master) × (a'.is_dev_mode ≡ a.is_dev_mode)
  unfolding adapter_loop
  adapter_keeps a (pir s) =
      let (s', acts) = Pir.loop (node_of i i.adapter_env a) s i.adapter_env.now in
      let k = perform-IsKept i.adapter_env (record a { device = pir s' }) acts in (k.role, k.mode)
  adapter_keeps a (serial p) =
      (serial_loop-KeepsRole (line_of i i.adapter_env a) p a.mesh i.line, refl)
