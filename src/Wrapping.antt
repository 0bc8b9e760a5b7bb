-- ===== src/Wrapping.antt =====
-- libsponge/wrapping_integers.hh and wrapping_integers.cc: sequence numbers modulo 2 ^ 32.
-- A `WrappingInt32` is its raw value, below 2 ^ 32.
pub mod Nearest
use cs144_sponge.Prelude.{
  ℕ, ◌+◌, ◌-◌, ◌*◌, ◌/◌, ◌^◌, max, min, u32, u64, sub32, sub64, ltb, if◌then◌else◌,
}

unfoldable pub wrap : ℕ → ℕ → ℕ
wrap n isn = u32 (u64 (isn + n))

-- `1 << 31` is an `int`, so its value is -(2 ^ 31), and it is converted to `uint64_t`.
abbrev pub int_min64 : ℕ
int_min64 = 2 ^ 64 - 2 ^ 31

pub lower32 : ℕ → ℕ → ℕ
lower32 n isn = sub32 n isn

pub upper32_1 : ℕ → ℕ
upper32_1 checkpoint = u32 (u64 (checkpoint + int_min64) / 2 ^ 32)

pub upper32_2 : ℕ → ℕ
upper32_2 checkpoint = u32 (sub64 checkpoint int_min64 / 2 ^ 32)

-- The distance that the source writes as max(a, b) - min(a, b).
pub dist : ℕ → ℕ → ℕ
dist a b = max a b - min a b

unfoldable pub unwrap : ℕ → ℕ → ℕ → ℕ
unfolding lower32 upper32_1 upper32_2 dist
unwrap n isn checkpoint =
    let result1 = u64 (u64 (upper32_1 checkpoint * 2 ^ 32) + lower32 n isn) in
    let result2 = u64 (u64 (upper32_2 checkpoint * 2 ^ 32) + lower32 n isn) in
    if ltb (dist result1 checkpoint) (dist result2 checkpoint) then result1 else result2
