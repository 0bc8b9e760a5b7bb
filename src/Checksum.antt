-- ===== src/Checksum.antt =====
-- `InternetChecksum` of libsponge/util/util.hh and util.cc.
pub mod Fold
pub mod Sum
pub mod Verify
use mathlib.Core.Logic.{dite}
use mathlib.Core.WellFounded.{Acc}
use cs144_sponge.Prelude.{
  ℕ, ◌+◌, ◌-◌, ◌*◌, ◌/◌, ◌%◌, ◌^◌, ◌<◌, List, [], ◌∷◌, Bool, true, false, not, u16, u32, dec_lt,
  arith, if◌then◌else◌,
}
use cs144_sponge.Prelude.Order.{lt_wf}

pub record InternetChecksum : Type 0 where
  pub sum : ℕ
  pub parity : Bool

pub checksum : ℕ → InternetChecksum
checksum initial_sum = record { sum = initial_sum; parity = false }

-- What one byte adds: the high half of a word, or the low half.
abbrev pub byte_value : Bool → ℕ → ℕ
byte_value parity b = if parity then b else u16 (b * 2 ^ 8)

pub add : InternetChecksum → List ℕ → InternetChecksum
add c [] = c
add c (b ∷ bs) =
    add (record { sum = u32 (c.sum + byte_value c.parity b); parity = not c.parity }) bs

-- Adding the high half of a number to the low one makes it smaller.
round-lt : (ret : ℕ) → 2 ^ 16 - 1 < ret → ret / 2 ^ 16 + ret % 2 ^ 16 < ret
round-lt ret h = omega arith

-- The loop of `value`. It needs no fuel: each round makes the sum smaller.
fold_acc : (ret : ℕ) → Acc ◌<◌ ret → ℕ
fold_acc ret (Acc.intro _ smaller) =
    dite (dec_lt (2 ^ 16 - 1) ret)
      (λ h.
        fold_acc (ret / 2 ^ 16 + ret % 2 ^ 16)
          (smaller (ret / 2 ^ 16 + ret % 2 ^ 16) (round-lt ret h)))
      (λ _. ret)

pub fold : ℕ → ℕ
unfolding fold_acc lt_wf dec_lt
fold ret = fold_acc ret (lt_wf.apply ret)

-- `~ret`, cut to 16 bits.
pub value : InternetChecksum → ℕ
unfolding fold
value c = u16 (2 ^ 32 - 1 - fold c.sum)
