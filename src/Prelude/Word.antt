-- ===== src/Prelude/Word.antt =====
-- `u64` arithmetic. A value is a number; the wrap and the saturation are written out.
use Prim.Native.Nat.{ℕ, ◌+◌, ◌*◌, ◌-◌, ◌%◌, ◌^◌, ◌<◌, min}
use mathlib.Core.Path.{◌≡◌}
use mathlib.Core.Logic.{◌≢◌}
use native.Mathlib.Omega.{arith}

abbrev pub u64_mod : ℕ
u64_mod = 2 ^ 64

abbrev pub u64_max : ℕ
u64_max = 2 ^ 64 - 1

-- `n += 1` of a release build: overflow wraps.
unfoldable pub increment : ℕ → ℕ
increment n = (n + 1) % u64_mod

-- `u64::saturating_add` and `u64::saturating_mul`.
unfoldable pub saturating_add : ℕ → ℕ → ℕ
saturating_add a b = min (a + b) u64_max

unfoldable pub saturating_mul : ℕ → ℕ → ℕ
saturating_mul a b = min (a * b) u64_max

-- A counter never keeps its value, also where it wraps.
pub increment-ne : (n : ℕ) → increment n ≢ n
unfolding increment
increment-ne n h = omega arith

pub increment-eq : (n : ℕ) → n < u64_max → increment n ≡ n + 1
unfolding increment
increment-eq n h = omega arith

pub increment-lt : (n : ℕ) → increment n < u64_mod
unfolding increment
increment-lt n = omega arith
