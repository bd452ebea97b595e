-- ===== src/Frames.antt =====
-- The physical frames of kernel/arch/i386/mem/paging.c: `frame_bitmap` has an entry for each frame
-- of 0x1000 bytes, USED (1) or FREE (0). An address is a `uint32_t`.
pub mod Alloc
mod Tests
use mathlib.Core.Option
use comet_os.Base.{ℕ, ◌*◌, ◌/◌, Option, none, some, ◌==◌, u32, if◌then◌else◌}
use comet_os.Bitmap
use comet_os.Bitmap.{Bitmap}

unfoldable pub frame_set : ℕ → Bitmap → Bitmap
frame_set addr b = (Bitmap.entrie_set (addr / 0x1000) 1 b).1

unfoldable pub frame_free : ℕ → Bitmap → Bitmap
frame_free addr b = (Bitmap.entrie_set (addr / 0x1000) 0 b).1

unfoldable pub frame_test : ℕ → Bitmap → ℕ
frame_test addr b = Bitmap.entrie_check (addr / 0x1000) b

-- `ADDR_GET` of what the bitmap finds; `none` is the want of fuel of `entrie_find`.
unfoldable pub frame_find : Bitmap → Option ℕ
frame_find b = Option.map (λ i. u32 (i * 0x1000)) (Bitmap.entrie_find 0x1 0 b)

-- The address of the frame, 0 for NULL, and the bitmap after the call.
take_frame : ℕ → Bitmap → ℕ × Bitmap
take_frame frame b = if frame == 0xffffffff then (0, b) else (frame, frame_set frame b)

unfoldable pub frame_alloc : Bitmap → Option (ℕ × Bitmap)
unfolding frame_find take_frame
frame_alloc b = Option.map (λ frame. take_frame frame b) (frame_find b)
