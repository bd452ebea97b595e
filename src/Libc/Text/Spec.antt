-- ===== src/Libc/Text/Spec.antt =====
-- What the string functions of libc/string are held to: strings in memory.
use comet_os.Base.{ℕ, ◌+◌, ◌<◌, ◌≡◌, ◌≢◌}
use comet_os.Libc.Mem.{Bytes}

-- A string of `n` bytes at `s`, and the zero behind them.
pub record IsString (m : Bytes) (s n : ℕ) : Type 0 where
  pub full : (i : ℕ) → i < n → m (s + i) ≢ 0
  pub stop : m (s + n) ≡ 0

-- The string of `n` bytes at `s` has the byte `c`.
abbrev pub Has : Bytes → ℕ → ℕ → ℕ → Type 0
Has m s n c = (i : ℕ) × (i < n) × (m (s + i) ≡ c)
