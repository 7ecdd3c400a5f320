-- ===== src/Hardware/Lamp.antt =====
-- Led.cpp over any sequence of calls: what the LED remembers and what its pin was driven to.
use planetopia_nodes.Shared.{
  ℕ, zero, suc, ◌≡◌, refl, sym, ap, ap₂, subst, ◌∙◌, Bool, true, false, List, [], ◌∷◌, ◌++◌, arith,
  ◌==◌, if◌then◌else◌,
}
use planetopia_nodes.Errors.Codes.{Fault}
use planetopia_nodes.Hardware.Pins.{Gpio}
use planetopia_nodes.Hardware.Led.{
  Led, Effect, drives, delays, fails, init, set_state, on, off, toggle, blink_loop, blink,
}

-- The calls of the class that act.
pub data Call : Type 0 where
  starts switches_on switches_off toggles : Call
  blinks : ℕ → ℕ → ℕ → Call

-- A call without its result.
abbrev left_by : Bool × Led × List Effect → Led × List Effect
left_by (ok, l, es) = (l, es)

unfoldable pub step : Led → Call → Led × List Effect
step l starts = left_by (init l)
step l switches_on = left_by (on l)
step l switches_off = left_by (off l)
step l toggles = left_by (toggle l)
step l (blinks times on_ms off_ms) = left_by (blink l times on_ms off_ms)

unfoldable pub run : Led → List Call → Led × List Effect
run l [] = (l, [])
run l (c ∷ cs) = let (l₁, es₁) = step l c in let (l₂, es₂) = run l₁ cs in (l₂, es₁ ++ es₂)

-- The level of the pin behind the effects, from the level `now` on.
unfoldable pub level : Bool → List Effect → Bool
level now [] = now
level now (drives b ∷ es) = level b es
level now (delays ms ∷ es) = level now es
level now (fails f ∷ es) = level now es

unfoldable pub faults : List Effect → List Fault
faults [] = []
faults (drives b ∷ es) = faults es
faults (delays ms ∷ es) = faults es
faults (fails f ∷ es) = f ∷ faults es

level-append : (now : Bool) (es fs : List Effect) → level now (es ++ fs) ≡ level (level now es) fs
unfolding level
level-append now [] fs = refl
level-append now (drives b ∷ es) fs = level-append b es fs
level-append now (delays ms ∷ es) fs = level-append now es fs
level-append now (fails f ∷ es) fs = level-append now es fs

faults-append : (es fs : List Effect) → faults (es ++ fs) ≡ faults es ++ faults fs
unfolding faults
faults-append [] fs = refl
faults-append (drives b ∷ es) fs = faults-append es fs
faults-append (delays ms ∷ es) fs = faults-append es fs
faults-append (fails f ∷ es) fs = ap (λ gs. f ∷ gs) (faults-append es fs)

-- A started LED remembers the level of its pin.
abbrev pub IsTracked : Led → Bool → Type 0
IsTracked l now = l.gpio.initialized ≡ true → now ≡ l.is_on

-- What a call does to a started or unstarted LED.
record IsStep (l : Led) (now : Bool) (r : Led × List Effect) : Type 0 where
  tracked : IsTracked r.0 (level now r.1)
  mute : l.is_system_error ≡ true → faults r.1 ≡ []
  same : r.0.is_system_error ≡ l.is_system_error

started-IsStep :
    (l : Led) (now b : Bool)
    → l.gpio.initialized ≡ true
    → IsTracked l now
    → IsStep l now (set_state l b)
unfolding set_state level faults
started-IsStep l now b s t = record {
  tracked = ground arith;
  mute = ground arith;
  same = ground arith;
}

then-IsStep :
    (l : Led) (now : Bool) (r s : Led × List Effect)
    → IsStep l now r
    → IsStep r.0 (level now r.1) s
    → IsStep l now (s.0, r.1 ++ s.1)
then-IsStep l now r s h k = record {
  tracked = subst (λ b. IsTracked s.0 b) (sym (level-append now r.1 s.1)) k.tracked;
  mute = λ e. faults-append r.1 s.1 ∙ ap₂ (λ xs ys. xs ++ ys) (h.mute e) (k.mute (h.same ∙ e));
  same = k.same ∙ h.same;
}

init-IsStep : (l : Led) (now : Bool) → IsTracked l now → IsStep l now (left_by (init l))
unfolding init level faults
init-IsStep l now t = record { tracked = ground arith; mute = ground arith; same = ground arith }

on-IsStep : (l : Led) (now : Bool) → IsTracked l now → IsStep l now (left_by (on l))
unfolding on set_state level faults
on-IsStep l now t = record { tracked = ground arith; mute = ground arith; same = ground arith }

off-IsStep : (l : Led) (now : Bool) → IsTracked l now → IsStep l now (left_by (off l))
unfolding off set_state level faults
off-IsStep l now t = record { tracked = ground arith; mute = ground arith; same = ground arith }

toggle-IsStep : (l : Led) (now : Bool) → IsTracked l now → IsStep l now (left_by (toggle l))
unfolding toggle set_state level faults
toggle-IsStep l now t = record { tracked = ground arith; mute = ground arith; same = ground arith }

delay-IsStep :
    (l : Led) (now : Bool) (ms : ℕ) (es : List Effect) (l' : Led)
    → IsStep l now (l', es)
    → IsStep l now (l', delays ms ∷ es)
unfolding level faults
delay-IsStep l now ms es l' h = record { tracked = h.tracked; mute = h.mute; same = h.same }

pause-IsStep :
    (l : Led) (now b : Bool) (ms : ℕ) (es : List Effect) (l' : Led)
    → IsStep l now (l', es)
    → IsStep l now (l', (if b then [] else delays ms ∷ []) ++ es)
pause-IsStep l now true ms es l' h = h
pause-IsStep l now false ms es l' h = delay-IsStep l now ms es l' h

started_still : (l : Led) (b : Bool) → (set_state l b).0.gpio ≡ l.gpio
unfolding set_state
started_still l b = ground arith

blink_loop-IsStep :
    (n on_ms off_ms : ℕ) (l : Led) (now : Bool)
    → l.gpio.initialized ≡ true
    → IsTracked l now
    → IsStep l now (blink_loop n on_ms off_ms l)
unfolding blink_loop level faults
blink_loop-IsStep zero on_ms off_ms l now s t = record {
  tracked = t;
  mute = λ e. refl;
  same = refl;
}
blink_loop-IsStep (suc n) on_ms off_ms l now s t =
    let (l₁, es₁) = set_state l true in
    let (l₂, es₂) = set_state l₁ false in
    let (l₃, es₃) = blink_loop n on_ms off_ms l₂ in
    let now₁ = level now es₁ in
    let now₂ = level now₁ es₂ in
    let s₁ : l₁.gpio.initialized ≡ true =
      ap (λ (g : Gpio). g.initialized) (started_still l true) ∙ s in
    let s₂ : l₂.gpio.initialized ≡ true =
      ap (λ (g : Gpio). g.initialized) (started_still l₁ false) ∙ s₁ in
    let k₁ = started-IsStep l now true s t in
    let k₂ = started-IsStep l₁ now₁ false s₁ k₁.tracked in
    let k₃ = blink_loop-IsStep n on_ms off_ms l₂ now₂ s₂ k₂.tracked in
    let paused = (if n == 0 then [] else delays off_ms ∷ []) ++ es₃ in
    let rest =
      then-IsStep l₁ now₁ (l₂, es₂) (l₃, paused) k₂
        (pause-IsStep l₂ now₂ (n == 0) off_ms es₃ l₃ k₃) in
    then-IsStep l now (l₁, es₁) (l₃, delays on_ms ∷ (es₂ ++ paused)) k₁
      (delay-IsStep l₁ now₁ on_ms (es₂ ++ paused) l₃ rest)

abbrev led : ℕ → Bool → Bool → Bool → Led
led pin initialized is_on is_system_error = record {
  gpio = record { pin = pin; initialized = initialized };
  is_on = is_on;
  is_system_error = is_system_error;
}

blink-led-IsStep :
    (pin : ℕ) (initialized is_on is_system_error now : Bool) (n on_ms off_ms : ℕ)
    → let l = led pin initialized is_on is_system_error in
      IsTracked l now → IsStep l now (left_by (blink l n on_ms off_ms))
unfolding blink level faults
blink-led-IsStep pin true is_on e now n on_ms off_ms t =
    blink_loop-IsStep n on_ms off_ms (led pin true is_on e) now refl t
blink-led-IsStep pin false is_on e now n on_ms off_ms t = record {
  tracked = λ q. cc;
  mute = ground arith;
  same = refl;
}

blink-IsStep :
    (l : Led) (now : Bool) (n on_ms off_ms : ℕ)
    → IsTracked l now
    → IsStep l now (left_by (blink l n on_ms off_ms))
blink-IsStep l now n on_ms off_ms t =
    blink-led-IsStep l.gpio.pin l.gpio.initialized l.is_on l.is_system_error now n on_ms off_ms t

step-IsStep : (l : Led) (now : Bool) (c : Call) → IsTracked l now → IsStep l now (step l c)
unfolding step
step-IsStep l now starts t = init-IsStep l now t
step-IsStep l now switches_on t = on-IsStep l now t
step-IsStep l now switches_off t = off-IsStep l now t
step-IsStep l now toggles t = toggle-IsStep l now t
step-IsStep l now (blinks n on_ms off_ms) t = blink-IsStep l now n on_ms off_ms t

run-IsStep : (cs : List Call) (l : Led) (now : Bool) → IsTracked l now → IsStep l now (run l cs)
unfolding run level faults
run-IsStep [] l now t = record { tracked = t; mute = λ e. refl; same = refl }
run-IsStep (c ∷ cs) l now t =
    let h = step-IsStep l now c t in
    then-IsStep l now (step l c) (run (step l c).0 cs) h
      (run-IsStep cs (step l c).0 (level now (step l c).1) h.tracked)

-- Over any sequence of calls a started LED remembers the level that its pin was driven to last, and the
-- LED of the error reporter reports no fault itself, also where it was never started.
pub run-IsTracked :
    (cs : List Call) (l : Led) (now : Bool)
    → IsTracked l now
    → IsTracked (run l cs).0 (level now (run l cs).1)
      × (l.is_system_error ≡ true → faults (run l cs).1 ≡ [])
run-IsTracked cs l now t = let h = run-IsStep cs l now t in (h.tracked, h.mute)
