-- ===== src/Hardware/Alarm.antt =====
-- ErrorCore::signalError with its display: every byte to the TM1637 waits for an acknowledge, and a
-- missed one is itself reported by signalError, which shows a code on the same display.
use planetopia_nodes.Shared.{
  ℕ, zero, suc, ◌+◌, ◌<◌, ◌≡◌, refl, ap, ◌∙◌, inl, inr, Bool, true, false, Option, none, some, List,
  [], ◌∷◌, ◌++◌, arith, if◌then◌else◌, Bool-cases,
}
use planetopia_nodes.Errors.Codes.{ErrorTypeDigit, ModuleDigit, make_error_code, Fault, fault}
use planetopia_nodes.Errors.Core.{
  ErrorCore, Effect, show, legacy_type, should_restart, signal_type, signal_error,
}

-- How a call ends: it returns, with the number of the next byte on the wire, or it restarts the chip.
pub data Outcome : Type 0 where
  returns : ErrorCore → List Effect → ℕ → Outcome
  restarted : List Effect → Outcome

-- What writeByte reports behind 20 ms without an acknowledge.
abbrev pub no_ack : Fault
no_ack = fault ErrorTypeDigit.hardware ModuleDigit.hw 2

-- The n bytes that setSegments still writes; `acks` tells which bytes are acknowledged, and `alarm` is
-- signalError for a missed one.
unfoldable pub send :
    (ErrorCore → ℕ → Option Outcome) → (ℕ → Bool) → ℕ → ErrorCore → List Effect → ℕ → Option Outcome
send alarm acks zero c es i = some (returns c es i)
send alarm acks (suc n) c es i = elim (acks i) [
  | true ↦ send alarm acks n c es (i + 1)
  | false ↦ elim (alarm c (i + 1)) [
    | none ↦ none
    | some (restarted es') ↦ some (restarted (es ++ es'))
    | some (returns c' es' j) ↦ send alarm acks n c' (es ++ es') j
  ]
]

-- The part of signalError behind the display.
abbrev pub conclude : ErrorTypeDigit → Option Outcome → Option Outcome
conclude kind o = elim o [
  | none ↦ none
  | some (restarted es) ↦ some (restarted es)
  | some (returns c es i) ↦
      let (c', rest) = signal_type c (legacy_type kind) in
      some (
        if should_restart (legacy_type kind)
        then restarted (es ++ rest)
        else returns c' (es ++ rest) i)
]

-- The display part of signalError: setSegments writes seven bytes.
unfoldable pub report :
    (ErrorCore → ℕ → Option Outcome) → (ℕ → Bool) → Fault → ErrorCore → ℕ → Option Outcome
report alarm acks f c i =
    if c.has_display
    then send alarm acks 7 c (show (make_error_code f.kind f.place f.sub) ∷ []) i
    else some (returns c [] i)

-- `signalError`, with fuel for the depth of its recursion.
unfoldable pub signal : ℕ → (ℕ → Bool) → Fault → ErrorCore → ℕ → Option Outcome
signal zero acks f c i = none
signal (suc fuel) acks f c i = conclude f.kind (report (signal fuel acks no_ack) acks f c i)

if_true {ℓ} : {A : Type ℓ} (b : Bool) (x y : A) → b ≡ true → (if b then x else y) ≡ x
if_true true x y e = refl
if_true false x y e = cc

-- Among any seven bytes in a row one is not acknowledged: the display is absent, or the line is bad.
abbrev pub IsUnreliable : (ℕ → Bool) → Type 0
IsUnreliable acks = (i : ℕ) → (k : ℕ) × (k < 7) × (acks (i + k) ≡ false)

send_lost :
    (alarm : ErrorCore → ℕ → Option Outcome) (acks : ℕ → Bool) (n k : ℕ) (c : ErrorCore)
    (es : List Effect) (i : ℕ)
    → ((j : ℕ) → alarm c j ≡ none)
    → k < n
    → acks (i + k) ≡ false
    → send alarm acks n c es i ≡ none
unfolding send
send_lost alarm acks zero k c es i dead h e = absurd (omega arith)
send_lost alarm acks (suc n) zero c es i dead h e =
    let bad : acks i ≡ false = ap acks (omega arith) ∙ e in rw (bad, send) (rw (dead (i + 1)) refl)
send_lost alarm acks (suc n) (suc k) c es i dead h e = elim (Bool-cases (acks i)) [
  | inl good ↦
      rw (good, send)
        (send_lost alarm acks n k c es (i + 1) dead (omega arith) (ap acks (omega arith) ∙ e))
  | inr bad ↦ rw (bad, send) (rw (dead (i + 1)) refl)
]

send_all :
    (alarm : ErrorCore → ℕ → Option Outcome) (acks : ℕ → Bool) (n : ℕ) (c : ErrorCore)
    (es : List Effect) (i : ℕ)
    → ((j : ℕ) → acks j ≡ true)
    → send alarm acks n c es i ≡ some (returns c es (i + n))
unfolding send
send_all alarm acks zero c es i good = ap (λ j. some (returns c es j)) (omega arith)
send_all alarm acks (suc n) c es i good =
    rw (good i, send)
      (send_all alarm acks n c es (i + 1) good ∙ ap (λ j. some (returns c es j)) (omega arith))

-- With a display that misses an acknowledge in every seven bytes, signalError does not return for any
-- depth of its recursion, nor does it reach the restart.
pub signal_never_returns :
    (fuel : ℕ) (acks : ℕ → Bool) (f : Fault) (c : ErrorCore) (i : ℕ)
    → c.has_display ≡ true
    → IsUnreliable acks
    → signal fuel acks f c i ≡ none
unfolding signal report
signal_never_returns zero acks f c i d u = refl
signal_never_returns (suc fuel) acks f c i d u =
    let (k, below, missed) = u i in
    ap (conclude f.kind) (
      if_true c.has_display _ _ d
      ∙ send_lost (signal fuel acks no_ack) acks 7 k c _ i
          (λ j. signal_never_returns fuel acks no_ack c j d u) below missed)

-- What a call does whose display acknowledges: it returns, or restarts behind the same effects.
abbrev pub acknowledged : Fault → ErrorCore → ℕ → Outcome
acknowledged f c i =
    let (c', es) = signal_error c f in
    if should_restart (legacy_type f.kind)
    then restarted es
    else returns c' es (if c.has_display then i + 7 else i)

-- With a display that acknowledges every byte, signalError does what the model without the wire says,
-- at any depth of its recursion that is not 0.
pub signal-signal_error :
    (fuel : ℕ) (acks : ℕ → Bool) (f : Fault) (c : ErrorCore) (i : ℕ)
    → ((j : ℕ) → acks j ≡ true)
    → signal (suc fuel) acks f c i ≡ some (acknowledged f c i)
unfolding signal report signal_error
signal-signal_error fuel acks f c i good = ground (
  arith,
  send_all (signal fuel acks no_ack) acks 7 c (show (make_error_code f.kind f.place f.sub) ∷ []) i
      good,
)
