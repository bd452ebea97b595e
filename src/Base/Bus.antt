-- ===== src/Base/Bus.antt =====
-- Port input and output (kernel/include/kernel/portio.h). The devices are not part of the
-- program: `answer` says what a read of a port returns after a history of accesses, the latest
-- access first, so that a bus stands for any deterministic device.
use Prim.Native.Nat.{ℕ, ◌%◌, ◌^◌}
use mathlib.Core.List.{List, ◌∷◌}

pub data Access : Type 0 where
  wrote : ℕ → ℕ → Access
  got : ℕ → ℕ → Access

pub record Bus : Type 0 where
  pub history : List Access
  pub answer : List Access → ℕ → ℕ

-- The port is a `uint16_t` and the value a `uint8_t`: what a caller passes is converted.
unfoldable pub outport8 : ℕ → ℕ → Bus → Bus
outport8 port value b = record b { history = wrote (port % 2 ^ 16) (value % 2 ^ 8) ∷ b.history }

-- The value read is the first component.
unfoldable pub inport8 : ℕ → Bus → ℕ × Bus
inport8 port b =
    let result = b.answer b.history (port % 2 ^ 16) % 2 ^ 8 in
    (result, record b { history = got (port % 2 ^ 16) result ∷ b.history })
