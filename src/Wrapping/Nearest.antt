-- ===== src/Wrapping/Nearest.antt =====
-- What `wrap` and `unwrap` of libsponge/wrapping_integers.cc promise to each other.
use cs144_sponge.Prelude.{ℕ, ◌-◌, ◌^◌, ◌≤◌, ◌<◌, ◌≡◌, arith}
use cs144_sponge.Wrapping.{wrap, unwrap, dist}

-- The absolute number that `unwrap` finds wraps to the given number again.
pub wrap-unwrap :
    (n isn checkpoint : ℕ)
    → n < 2 ^ 32
    → isn < 2 ^ 32
    → checkpoint < 2 ^ 64
    → wrap (unwrap n isn checkpoint) isn ≡ n
unfolding wrap unwrap
wrap-unwrap n isn checkpoint hn hi hc = ground arith

-- Of all 64-bit numbers that wrap to `n`, `unwrap` finds one that is nearest to the checkpoint.
pub unwrap_nearest :
    (n isn checkpoint x : ℕ)
    → n < 2 ^ 32
    → isn < 2 ^ 32
    → checkpoint < 2 ^ 64
    → x < 2 ^ 64
    → wrap x isn ≡ n
    → dist (unwrap n isn checkpoint) checkpoint ≤ dist x checkpoint
unfolding wrap unwrap dist
unwrap_nearest n isn checkpoint x hn hi hc hx e = ground arith

-- A number less than 2 ^ 31 away from the checkpoint is found again.
pub unwrap-wrap :
    (x isn checkpoint : ℕ)
    → isn < 2 ^ 32
    → checkpoint < 2 ^ 64
    → x < 2 ^ 64
    → dist x checkpoint < 2 ^ 31
    → unwrap (wrap x isn) isn checkpoint ≡ x
unfolding wrap unwrap dist
unwrap-wrap x isn checkpoint hi hc hx near = ground arith

pub wrap-zero : (isn : ℕ) → isn < 2 ^ 32 → wrap 0 isn ≡ isn
unfolding wrap
wrap-zero isn h = omega arith

pub dist-zero : (n : ℕ) → dist 0 n ≡ n
unfolding dist
dist-zero n = omega arith

pub dist_le : (m n : ℕ) → m ≤ n → dist m n ≡ n - m
unfolding dist
dist_le m n h = omega arith

pub dist_small : (m n k : ℕ) → m < k → n < k → dist m n < k
unfolding dist
dist_small m n k h l = omega arith
