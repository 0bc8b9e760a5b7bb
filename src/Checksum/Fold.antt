-- ===== src/Checksum/Fold.antt =====
-- What the loop of `InternetChecksum::value` in libsponge/util/util.cc computes.
use mathlib.Core.Logic.{dif_pos, dif_neg}
use mathlib.Core.WellFounded.{Acc}
use cs144_sponge.Prelude.{
  ℕ, ◌+◌, ◌-◌, ◌*◌, ◌/◌, ◌%◌, ◌^◌, ◌≤◌, ◌<◌, ◌≡◌, ◌∙◌, ◌⊎◌, inl, inr, Bool, arith, dec_lt,
}
use native.Mathlib.Bridge.{le_prop}
use cs144_sponge.Prelude.Order.{lt_wf}
use cs144_sponge.Checksum.{InternetChecksum, fold_acc, round-lt, fold, value}

-- `r` is `ret` with the multiples of 2 ^ 16 - 1 taken out, and 0 only where `ret` is.
pub record Folds (ret r : ℕ) : Type 0 where
  pub times : ℕ
  pub whole : ret ≡ (2 ^ 16 - 1) * times + r
  pub small : r ≤ 2 ^ 16 - 1
  pub nonzero : (ret ≡ 0) ⊎ (0 < r)

fold_acc-Folds : (ret : ℕ) (w : Acc ◌<◌ ret) → Folds ret (fold_acc ret w)
unfolding fold_acc
fold_acc-Folds ret (Acc.intro _ smaller) = elim (dec_lt (2 ^ 16 - 1) ret) [
  | yes h ↦
      let next = ret / 2 ^ 16 + ret % 2 ^ 16 in
      let f = fold_acc-Folds next (smaller next (round-lt ret h)) in
      rw (dif_pos (dec_lt (2 ^ 16 - 1) ret) le_prop h) (record {
        times = ret / 2 ^ 16 + f.times;
        whole = omega (arith, f.whole);
        small = f.small;
        nonzero = elim f.nonzero [ inl e ↦ absurd (omega arith) | inr k ↦ inr k ];
      })
  | no h ↦ rw (dif_neg (dec_lt (2 ^ 16 - 1) ret) h) (record {
    times = 0;
    whole = omega arith;
    small = omega arith;
    nonzero = elim (dec_lt 0 ret) [ yes k ↦ inr k | no k ↦ inl (omega arith) ];
  })
]

-- The loop ends, and leaves the number with all multiples of 2 ^ 16 - 1 but for a last one taken
-- out.
pub fold-Folds : (ret : ℕ) → Folds ret (fold ret)
unfolding fold
fold-Folds ret = fold_acc-Folds ret (lt_wf.apply ret)

pub value_lem : (s : ℕ) (p : Bool) → value (record { sum = s; parity = p }) ≡ 2 ^ 16 - 1 - fold s
unfolding value
value_lem s p = omega (arith, (fold-Folds s).small)

-- A sum to which its own checksum has been added has the checksum 0.
pub value-add_value :
    (s : ℕ) (p q : Bool)
    → value (record { sum = s + value (record { sum = s; parity = p }); parity = q }) ≡ 0
value-add_value s p q =
    let v = value_lem s p in
    let f = fold-Folds s in
    let t = s + value (record { sum = s; parity = p }) in
    let g = fold-Folds t in
    value_lem t q ∙ elim g.nonzero [
      | inl e ↦ absurd (omega (arith, v, f.whole))
      | inr e ↦ omega (arith, v, f.whole, f.small, g.whole, g.small)
    ]

pub value-lt : (c : InternetChecksum) → value c < 2 ^ 16
unfolding value
value-lt c = omega arith
