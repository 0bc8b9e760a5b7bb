-- ===== src/Prelude/Outcomes.antt =====
-- Calls that change an object and may fail: the state survives an exception.

-- `null_pointer` and `past_end` are reads that C++ leaves undefined; the others are exceptions.
pub data Fault : Type 0 where
  out_of_range runtime_error null_pointer past_end : Fault

pub data Outcome {ℓ κ} (S : Type ℓ) (A : Type κ) : Type (ℓ ⊔ κ) where
  ok : A → S → Outcome S A
  throws : Fault → S → Outcome S A

-- Sequencing in the state that the first call leaves; a fault ends the run.
abbrev pub and_then {ℓ κ μ} :
    {S : Type ℓ} {A : Type κ} {B : Type μ} → Outcome S A → (A → S → Outcome S B) → Outcome S B
and_then (ok a s) k = k a s
and_then (throws e s) k = throws e s

-- A call on a part of an object, seen as a call on the object.
abbrev pub lift {ℓ κ μ} :
    {S : Type ℓ} {T : Type κ} {A : Type μ} → (S → T) → Outcome S A → Outcome T A
lift up (ok a s) = ok a (up s)
lift up (throws e s) = throws e (up s)

-- The state that a call leaves.
abbrev pub state_of {ℓ κ} : {S : Type ℓ} {A : Type κ} → Outcome S A → S
state_of (ok a s) = s
state_of (throws e s) = s
