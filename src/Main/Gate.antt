-- ===== src/Main/Gate.antt =====
-- What a round of the loop leaves of the node's role, and what it does on a node that is not enrolled.
use planetopia_nodes.Shared.{
  ◌≡◌, refl, sym, subst, ◌∙◌, inl, inr, true, false, List, [], ◌∷◌, ◌++◌, arith, ltb, if◌then◌else◌,
  Bool-cases, elapsed,
}
use planetopia_nodes.Adapter.Types.{unknown_adapter}
use planetopia_nodes.Mesh.Types.{enrollment, broadcast_mac, zero_message, sends}
use planetopia_nodes.Mesh.Sending.{send_enrollment_request}
use planetopia_nodes.Main.App.{App}
use planetopia_nodes.Main.Rounds.{Inputs, Run, and_then, radio}
use planetopia_nodes.Main.Loop.{
  ask_enrollment, adapter_loop, toggle_role, press_config, reset, press_reset, first_half,
  press_both, second_half, is_locked, gate, loop, rounds,
}
use planetopia_nodes.Main.Buttons.{ResetAction, nothing, arms, wipes, expires, reset_button}
use planetopia_nodes.Main.Kept.{IsKept, IsKept-trans, first_half-IsKept, ask-IsKept, adapter_keeps}

-- In production mode a part of the round keeps the role and the mode.
abbrev Stays : App → App → Type 0
Stays a b = a.is_dev_mode ≡ false → (b.mesh.is_master ≡ a.mesh.is_master) × (b.is_dev_mode ≡ false)

IsKept-Stays : (a b : App) → IsKept a b → Stays a b
IsKept-Stays a b k d = (k.role, k.mode ∙ d)

and_then-Stays :
    (a : App) (r : Run) (k : App → Run)
    → Stays a r.app
    → ((b : App) → Stays b (k b).app)
    → Stays a (and_then r k).app
and_then-Stays a r k h next d = elim (Bool-cases r.restarted) [
  | inl stop ↦ rw stop (h d)
  | inr on ↦
      let (role, mode) = h d in let (role', mode') = next r.app mode in rw on (role' ∙ role, mode')
]

module _ (i : Inputs) where
  config-Stays : (a : App) → Stays a (press_config i a).app
  unfolding press_config toggle_role
  config-Stays a d = ground arith

  reset-Stays : (a : App) (act : ResetAction) → Stays a (reset i a act).app
  unfolding reset
  reset-Stays a nothing d = (refl, d)
  reset-Stays a arms d = (refl, d)
  reset-Stays a wipes d = (refl, d)
  reset-Stays a expires d = (refl, d)

  press_reset-Stays : (a : App) → Stays a (press_reset i a).app
  unfolding press_reset
  press_reset-Stays a =
      let (b, act) = reset_button a.buttons i.reset_pressed i.reset_now i.reset_then in
      reset-Stays (record a { buttons = b }) act

  second_half-Stays : (a : App) → Stays a (second_half i a).app
  unfolding second_half press_both
  second_half-Stays a =
      and_then-Stays a (adapter_loop i a a.device) (press_both i)
        (λ d. let (role, mode) = adapter_keeps i a a.device in (role, mode ∙ d))
        (λ b.
          and_then-Stays b (press_config i b) (press_reset i) (config-Stays b) press_reset-Stays)

  gate_locked : (a : App) → is_locked a ≡ true → gate i a ≡ ask_enrollment i a
  unfolding gate
  gate_locked a e = rw e refl

  gate_open : (a : App) → is_locked a ≡ false → gate i a ≡ second_half i a
  unfolding gate
  gate_open a e = rw e refl

  gate-Stays : (a : App) → Stays a (gate i a).app
  gate-Stays a = elim (Bool-cases (is_locked a)) [
    | inl e ↦ rw (gate_locked a e) (IsKept-Stays a _ (ask-IsKept i a))
    | inr e ↦ rw (gate_open a e) (second_half-Stays a)
  ]

  loop-Stays : (a : App) → Stays a (loop i a).app
  unfolding loop
  loop-Stays a =
      and_then-Stays a (first_half i a) (gate i) (IsKept-Stays a _ (first_half-IsKept i a))
        gate-Stays

rounds-Stays : (is : List Inputs) (a : App) → Stays a (rounds is a).app
unfolding rounds
rounds-Stays [] a d = (refl, d)
rounds-Stays (i ∷ is) a d =
    and_then-Stays a (loop i a) (rounds is) (loop-Stays i a) (rounds-Stays is) d

-- In production mode no message off the air or from the server and no button changes the role of the
-- running node, in any number of rounds: a new role takes a restart.
pub role_fixed :
    (is : List Inputs) (a : App)
    → a.is_dev_mode ≡ false
    → (rounds is a).app.mesh.is_master ≡ a.mesh.is_master
role_fixed is a d = (rounds-Stays is a d).0

-- A whole round that is locked behind its first half `r`: the state of `r` but for the time of the last
-- request, and behind the effects of `r` nothing but the request for enrollment, broadcast if more than
-- ten seconds have passed since the last.
abbrev pub locked_end : Inputs → Run → Run
locked_end i r =
    let due = ltb 10000 (elapsed i.enroll_now r.app.last_enrollment_broadcast) in
    record {
      app = record r.app {
        last_enrollment_broadcast = if due then i.enroll_then else r.app.last_enrollment_broadcast;
      };
      effects =
          r.effects
          ++ (if due
              then radio (
                  sends broadcast_mac (record zero_message {
                    message_type = enrollment;
                    data_type = unknown_adapter;
                    origin = r.app.mesh.device_mac;
                    target = broadcast_mac;
                    last_hop = r.app.mesh.device_mac;
                    hop_count = 0;
                    enrollment_public_key = r.app.mesh.public_key;
                  }))
                ∷ []
              else []);
      restarted = false;
    }

ask_enrollment-locked_end :
    (i : Inputs) (r : Run) → r.restarted ≡ false → and_then r (ask_enrollment i) ≡ locked_end i r
unfolding ask_enrollment send_enrollment_request
ask_enrollment-locked_end i r on =
    elim (Bool-cases (ltb 10000 (elapsed i.enroll_now r.app.last_enrollment_broadcast))) [
      | inl e ↦ rw (on, e) refl
      | inr e ↦ rw (on, e) refl
    ]

-- A round that finds the node neither enrolled nor a master behind the work of the mesh and the display,
-- and that no message has restarted by then, ends with the state and the effects of that first half,
-- but for the request for enrollment that it broadcasts if more than ten seconds have passed since the
-- last, and the time of that request. It does not restart the node, and it leaves the role, the mode,
-- the buttons and the state of the adapter as they were before the round.
pub locked_round :
    (i : Inputs) (a : App)
    → (first_half i a).restarted ≡ false
    → is_locked (first_half i a).app ≡ true
    → (loop i a ≡ locked_end i (first_half i a)) × IsKept a (loop i a).app
unfolding loop
locked_round i a on locked =
    let b = (first_half i a).app in
    let asks : loop i a ≡ and_then (first_half i a) (ask_enrollment i) =
      rw (on, gate_locked i b locked) refl in
    let ends : loop i a ≡ locked_end i (first_half i a) =
      asks ∙ ask_enrollment-locked_end i (first_half i a) on in
    (
      ends,
      subst (λ r. IsKept a r.app) (sym asks)
          (rw on (IsKept-trans a b _ (first_half-IsKept i a) (ask-IsKept i b))),
    )
