-- ===== src/Main/Hold.antt =====
-- The hold of the config button, over a press of any length and over the wrap of the clock.
use planetopia_nodes.Shared.{
  ℕ, ◌+◌, ◌%◌, ◌≤◌, ◌<◌, ◌≡◌, ap, Bool, true, false, List, [], ◌∷◌, ◌++◌, arith, u32, length,
  replicate,
}
use planetopia_nodes.Main.Buttons.{Buttons, config_button, button_hold_time_ms}

-- The config button over readings of its pin and of millis(), and whether each round completed a hold.
unfoldable pub run : Buttons → List (Bool × ℕ) → Buttons × List Bool
run b [] = (b, [])
run b ((pressed, now) ∷ rs) =
    let (b₁, fired) = config_button b pressed now in
    let (b₂, rest) = run b₁ rs in (b₂, fired ∷ rest)

-- Rounds that find the button pressed, at some milliseconds after the reading `t`.
unfoldable pub pressed_at : ℕ → List ℕ → List (Bool × ℕ)
pressed_at t [] = []
pressed_at t (d ∷ ds) = (true, (t + d) % u32) ∷ pressed_at t ds

abbrev pub AreShort : List ℕ → Type 0
AreShort [] = Unit {0}
AreShort (d ∷ ds) = (d < button_hold_time_ms) × AreShort ds

held : ℕ → Buttons → Buttons
held t b = record b { was_pressed = true; hold_start = t }

holding :
    (t : ℕ) (b : Buttons) (ds : List ℕ) (d : ℕ)
    → t < u32
    → AreShort ds
    → button_hold_time_ms ≤ d
    → d < u32
    → (run (held t b) (pressed_at t (ds ++ d ∷ []))).1 ≡ replicate (length ds) false ++ true ∷ []
unfolding run pressed_at held config_button
holding t b [] d h s l u = ground arith
holding t b (e ∷ ds) d h (i, s) l u = ground (arith, holding t b ds d h s l u)

-- The config button, pressed at the reading `t` after a release and found pressed in every round that
-- follows, completes its hold in the first round that is at least five seconds later, and in none
-- before, also where millis() wraps in between.
pub hold_completes :
    (t : ℕ) (b : Buttons) (ds : List ℕ) (d : ℕ)
    → t < u32
    → b.was_pressed ≡ false
    → AreShort ds
    → button_hold_time_ms ≤ d
    → d < u32
    → (run b ((true, t) ∷ pressed_at t (ds ++ d ∷ []))).1
      ≡ false ∷ replicate (length ds) false ++ true ∷ []
unfolding run config_button held
hold_completes t b ds d h r s l u = rw r (ap (λ fs. false ∷ fs) (holding t b ds d h s l u))
