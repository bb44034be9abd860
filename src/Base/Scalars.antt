-- ===== src/Base/Scalars.antt =====
-- Rust's scalar types. A `f64` is its bit pattern: the program's operations on it are parameters
-- where a definition uses them. An instant is its number of milliseconds.
use Prim.Native.Nat.{ℕ, ◌+◌, min}

abbrev pub F64 : Type 0
F64 = ℕ

-- The bit pattern of `0.0`.
abbrev pub f64_zero : F64
f64_zero = 0

abbrev pub DateTime : Type 0
DateTime = ℕ

abbrev pub u32_max : ℕ
u32_max = 4294967295

abbrev pub usize_max : ℕ
usize_max = 18446744073709551615

-- `a.saturating_add(b)` on an unsigned type with the given largest value.
abbrev pub saturating_add : ℕ → ℕ → ℕ → ℕ
saturating_add largest a b = min (a + b) largest
