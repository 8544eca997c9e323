-- ===== src/Prelude/Memory.antt =====
-- Bytes behind a pointer: `m i` is `m[i]`, `shift m k` is the pointer `m + k`.
use power.Prelude.Lists.{get_or}
use Prim.Native.Nat.{ℕ, ◌+◌, ◌<◌}
use mathlib.Core.Path.{◌≡◌}
use mathlib.Core.List.{List}

abbrev pub Memory : Type 0
Memory = ℕ → ℕ

abbrev pub shift : Memory → ℕ → Memory
shift m k i = m (k + i)

-- A buffer that holds the given bytes, with zeros behind them.
abbrev pub buffer : List ℕ → Memory
buffer bytes i = get_or bytes i 0

-- Two buffers that hold the same first `n` bytes.
abbrev pub Agree : ℕ → Memory → Memory → Type 0
Agree n a b = (i : ℕ) → i < n → a i ≡ b i
