-- ===== src/Adapter/PirLaws.antt =====
-- The motion sensor over any sequence of interrupts and rounds of the main loop.
use planetopia_nodes.Shared.{
  ℕ, ◌+◌, ◌*◌, ◌<◌, ◌≡◌, Bool, true, false, not, ◌||◌, List, [], ◌∷◌, ◌++◌, arith, if◌then◌else◌,
  elapsed,
}
use planetopia_nodes.Adapter.Types.{pir_adapter, is_type}
use planetopia_nodes.Adapter.Dispatch.{
  Node, Action, restarts, fails, transmits, passes_on, send_data_through_mesh,
}
use planetopia_nodes.Adapter.Pir.{
  Sensor, detect_motion, notice_motion, report_motion, end_cooldown, report_health, loop,
}

-- An interrupt of the pin, or one round of the main loop.
pub data Event : Type 0 where
  rises : Event
  rounds : ℕ → Event

unfoldable pub step : Node → Sensor → Event → Sensor × List Action
step n s rises = (detect_motion s, [])
step n s (rounds now) = loop n s now

unfoldable pub run : Node → Sensor → List Event → Sensor × List Action
run n s [] = (s, [])
run n s (e ∷ es) =
    let (s₁, acts₁) = step n s e in let (s₂, acts₂) = run n s₁ es in (s₂, acts₁ ++ acts₂)

-- Between two events of an initialised sensor: a running cooldown has been reported, and the interrupt
-- is armed exactly when there is neither a motion to notice nor a cooldown.
pub record IsSettled (s : Sensor) : Type 0 where
  pub started : s.is_initialized ≡ true
  pub reported : s.motion_sent ≡ s.timer_active
  pub armed : s.interrupt_enabled ≡ not (s.motion_detected || s.timer_active)

-- The motions reported.
unfoldable pub reports : List Action → ℕ
reports [] = 0
reports (transmits t bytes ∷ acts) = (if is_type t pir_adapter then 1 else 0) + reports acts
reports (_ ∷ acts) = reports acts

abbrev pub one_if : Bool → ℕ
one_if b = if b then 1 else 0

-- The interrupts that find the sensor armed.
unfoldable pub noticed : Node → Sensor → List Event → ℕ
noticed n s [] = 0
noticed n s (rises ∷ es) = one_if s.interrupt_enabled + noticed n (step n s rises).0 es
noticed n s (rounds now ∷ es) = noticed n (step n s (rounds now)).0 es

reports-append : (xs ys : List Action) → reports (xs ++ ys) ≡ reports xs + reports ys
unfolding reports
reports-append [] ys = omega arith
reports-append (restarts ∷ xs) ys = reports-append xs ys
reports-append (fails f ∷ xs) ys = reports-append xs ys
reports-append (transmits t bytes ∷ xs) ys = omega (arith, reports-append xs ys)
reports-append (passes_on msg ∷ xs) ys = reports-append xs ys

step-IsSettled : (n : Node) (s : Sensor) (e : Event) → IsSettled s → IsSettled (step n s e).0
unfolding step detect_motion loop notice_motion report_motion end_cooldown report_health
step-IsSettled n s rises h = ground (arith, h.started, h.reported, h.armed)
step-IsSettled n s (rounds now) h = ground (arith, h.started, h.reported, h.armed)

noticed-cons :
    (n : Node) (s : Sensor) (e : Event) (es : List Event)
    → noticed n s (e ∷ es) ≡ noticed n s (e ∷ []) + noticed n (step n s e).0 es
unfolding noticed
noticed-cons n s rises es = omega arith
noticed-cons n s (rounds now) es = omega arith

-- One event turns the pending motions and the accepted interrupts into reports.
step-reports :
    (n : Node) (s : Sensor) (e : Event)
    → n.can_transmit ≡ true
    → IsSettled s
    → reports (step n s e).1 + one_if (step n s e).0.motion_detected
      ≡ one_if s.motion_detected + noticed n s (e ∷ [])
unfolding step reports noticed detect_motion loop notice_motion report_motion end_cooldown
    report_health send_data_through_mesh
step-reports n s rises c h = ground (arith, h.started, h.reported, h.armed)
step-reports n s (rounds now) c h = ground (arith, h.started, h.reported, h.armed)

-- Over any sequence of interrupts and rounds, with the transmit function set, a settled sensor stays
-- settled, and the motions reported, with one that still waits for the next round, are exactly the
-- interrupts that found it armed, with one that waited at the start.
pub motions_reported_once :
    (n : Node) (s : Sensor) (es : List Event)
    → n.can_transmit ≡ true
    → IsSettled s
    → IsSettled (run n s es).0
      × (reports (run n s es).1 + one_if (run n s es).0.motion_detected
          ≡ one_if s.motion_detected + noticed n s es)
unfolding run noticed reports
motions_reported_once n s [] c h = (h, omega arith)
motions_reported_once n s (e ∷ es) c h =
    let s₁ : Sensor = (step n s e).0 in
    let (h₁, k) = motions_reported_once n s₁ es c (step-IsSettled n s e h) in
    (
      h₁,
      omega (
        arith,
        k,
        step-reports n s e c h,
        reports-append (step n s e).1 (run n s₁ es).1,
        noticed-cons n s e es,
      ),
    )

-- A settled sensor is armed after a round that finds no motion and comes after the cooldown.
pub armed_after_cooldown :
    (n : Node) (s : Sensor) (now : ℕ)
    → IsSettled s
    → s.motion_detected ≡ false
    → s.cooldown_seconds * 1000 < elapsed now s.last_trigger
    → (loop n s now).0.interrupt_enabled ≡ true
unfolding loop notice_motion report_motion end_cooldown report_health
armed_after_cooldown n s now h quiet late = ground (arith, h.started, h.reported, h.armed)
