-- ===== src/Main/Wipe.antt =====
-- The confirmation of the EEPROM wipe by the reset button, over any sequence of rounds of the loop.
use planetopia_nodes.Shared.{
  ℕ, ◌+◌, ◌≤◌, ◌<◌, ◌≡◌, refl, Bool, true, false, List, [], ◌∷◌, arith, if◌then◌else◌, u32,
}
use planetopia_nodes.Main.Buttons.{Buttons, ResetAction, wipes, reset_held, reset_button}

-- What one round of the loop finds: whether the button is pressed, and the two readings of millis().
pub record Round : Type 0 where
  pub pressed : Bool
  pub now : ℕ
  pub later : ℕ

-- The reset button over a sequence of rounds, and what it did in each.
unfoldable pub run : Buttons → List Round → Buttons × List ResetAction
run b [] = (b, [])
run b (r ∷ rs) =
    let (b₁, act) = reset_button b r.pressed r.now r.later in
    let (b₂, acts) = run b₁ rs in (b₂, act ∷ acts)

-- The clock only moves forward from `t`, and does not pass its last reading before the wrap.
abbrev pub IsForward : ℕ → List Round → Type 0
IsForward t [] = Unit {0}
IsForward t (r ∷ rs) =
    (t ≤ r.now) × (r.now ≤ r.later) × (r.later + 3000 < u32) × IsForward r.later rs

abbrev is_wipe : ResetAction → Bool
is_wipe wipes = true
is_wipe _ = false

-- How many of the actions wipe the EEPROM.
unfoldable pub wipe_count : List ResetAction → ℕ
wipe_count [] = 0
wipe_count (a ∷ acts) = (if is_wipe a then 1 else 0) + wipe_count acts

-- What holds of the buttons at time `t`: a hold that runs while a confirmation is pending began
-- after the arming.
abbrev pub IsOrdered : ℕ → Buttons → Type 0
IsOrdered t b =
    (b.confirm_pending ≡ true → b.confirm_deadline ≤ t + 3000)
    × (b.reset_was_pressed ≡ true → b.reset_hold_start ≤ t)
    × (b.confirm_pending ≡ true
        → b.reset_was_pressed ≡ true
        → b.confirm_deadline ≤ b.reset_hold_start + 3000)

reset_button-IsOrdered :
    (t : ℕ) (b : Buttons) (p : Bool) (now later : ℕ)
    → IsOrdered t b
    → t ≤ now
    → now ≤ later
    → later + 3000 < u32
    → IsOrdered later (reset_button b p now later).0
      × (is_wipe (reset_button b p now later).1 ≡ false)
unfolding reset_button reset_held
reset_button-IsOrdered t b p now later h i j k = ground arith

-- From any ordered state, while the clock of the node does not wrap, no sequence of presses of the
-- reset button ever wipes the EEPROM: the second hold takes five seconds, and the confirmation is only
-- valid for three.
pub wipe_never_confirmed :
    (t : ℕ) (b : Buttons) (rs : List Round)
    → IsOrdered t b
    → IsForward t rs
    → wipe_count (run b rs).1 ≡ 0
unfolding run wipe_count
wipe_never_confirmed t b [] h f = refl
wipe_never_confirmed t b (r ∷ rs) h (i, j, k, f) =
    let (o, w) = reset_button-IsOrdered t b r.pressed r.now r.later h i j k in
    ground
      (arith, w, wipe_never_confirmed r.later (reset_button b r.pressed r.now r.later).0 rs o f)
