-- ===== src/Keyboard.antt =====
-- The keyboard, kernel/kernel/kb.c and kernel/include/kernel/kbdus.h. `memory` holds what the two
-- buffer pointers point into, apart from the terminal's cells and from what the trial keys allocate;
-- the port accesses and the echo are those of `terminal`.
pub mod Buffers
pub mod Modifiers
pub mod Echo
mod Tests
use comet_os.Base.{
  ℕ, zero, suc, ◌+◌, ◌-◌, ◌%◌, ◌^◌, bit_or, List, [], ◌∷◌, Option, none, some, Bool, true, false,
  ltb, ◌==◌, ◌!=◌, ◌||◌, u8, u16, bit, if◌then◌else◌,
}
use comet_os.Base.Bus.{Bus, outport8, inport8}
use comet_os.Libc.Mem.{Bytes}
use comet_os.Terminal.{Terminal, putchar}
use comet_os.Interrupts.{Cpu, irq_install_handler}

pub record Keyboard : Type 0 where
  pub kb_buffer : ℕ
  pub kb_buffer_raw : ℕ
  pub kb_count : ℕ
  pub kb_count_raw : ℕ
  pub kb_ltmp : ℕ
  pub kb_shift_flag : ℕ
  pub kb_caps_flag : ℕ
  pub wait_set : ℕ
  pub memory : Bytes
  pub terminal : Terminal

abbrev pub kb_maxbuffer : ℕ
kb_maxbuffer = 255

-- What the handler does at its end besides: nothing, or one of the trials behind the keys 1, 2 and
-- 3, which read 0xA0000000, take a page of the heap, and take an `int`.
pub data Trial : Type 0 where
  no_trial : Trial
  page_fault : Trial
  heap_page : Trial
  kernel_int : Trial

-- The entries of `kbdus` up to the last one that is not 0.
abbrev pub kbdus_entries : List ℕ
kbdus_entries =
    0 ∷ 27 ∷ b'1' ∷ b'2' ∷ b'3' ∷ b'4' ∷ b'5' ∷ b'6' ∷ b'7' ∷ b'8' ∷ b'9' ∷ b'0' ∷ b'-' ∷ b'=' ∷ 8
    ∷ 9 ∷ b'q' ∷ b'w' ∷ b'e' ∷ b'r' ∷ b't' ∷ b'y' ∷ b'u' ∷ b'i' ∷ b'o' ∷ b'p' ∷ b'[' ∷ b']' ∷ 10 ∷ 0
    ∷ b'a' ∷ b's' ∷ b'd' ∷ b'f' ∷ b'g' ∷ b'h' ∷ b'j' ∷ b'k' ∷ b'l' ∷ b';' ∷ 39 ∷ b'`' ∷ 0 ∷ 92
    ∷ b'z' ∷ b'x' ∷ b'c' ∷ b'v' ∷ b'b' ∷ b'n' ∷ b'm' ∷ b',' ∷ b'.' ∷ b'/' ∷ 0 ∷ b'*' ∷ 0 ∷ b' ' ∷ 0
    ∷ 0 ∷ 0 ∷ 0 ∷ 0 ∷ 0 ∷ 0 ∷ 0 ∷ 0 ∷ 0 ∷ 0 ∷ 0 ∷ 0 ∷ 0 ∷ 0 ∷ 0 ∷ b'-' ∷ 0 ∷ 0 ∷ 0 ∷ b'+' ∷ []

entry : List ℕ → ℕ → ℕ
entry [] i = 0
entry (c ∷ entries) zero = c
entry (c ∷ entries) (suc i) = entry entries i

unfoldable pub kbdus : ℕ → ℕ
unfolding entry
kbdus scancode = entry kbdus_entries scancode

abbrev pub stored : ℕ → ℕ → Bytes → Bytes
stored p v m j = if j == p then v else m j

-- The raw buffer, at the position behind the last one or again from the start.
unfoldable pub store_raw : ℕ → Keyboard → Keyboard
store_raw scancode k =
    if ltb k.kb_count_raw kb_maxbuffer
    then record k {
      memory = stored (k.kb_buffer_raw + k.kb_count_raw) scancode k.memory;
      kb_count_raw = k.kb_count_raw + 1;
    }
    else record k { memory = stored k.kb_buffer_raw scancode k.memory; kb_count_raw = 0 }

-- A light goes on; none goes off.
unfoldable pub led : ℕ → Keyboard → Keyboard
led light k =
    let ltmp = u16 (bit_or k.kb_ltmp light) in
    record k {
      kb_ltmp = ltmp;
      terminal = record k.terminal { bus = outport8 0x60 ltmp (outport8 0x60 0xed k.terminal.bus) };
    }

unfoldable pub leds : ℕ → Keyboard → Keyboard
leds scancode k =
    if scancode == 0x3a
    then record (led 4 k) { kb_caps_flag = if k.kb_caps_flag != 0 then 0 else 1 }
    else if scancode == 0x45
    then led 2 k
    else if scancode == 0x46
    then led 1 k
    else k

-- The position is that of the raw buffer, and `kb_count` stays.
unfoldable pub store : ℕ → Keyboard → Keyboard
store c k =
    if ltb k.kb_count kb_maxbuffer
    then record k {
      memory = stored (k.kb_buffer + k.kb_count_raw) c k.memory;
      kb_count_raw = k.kb_count_raw + 1;
    }
    else record k { memory = stored k.kb_buffer c k.memory; kb_count = 0 }

unfoldable pub show : ℕ → Keyboard → Keyboard × Trial
show c k =
    if c == b'1'
    then (k, page_fault)
    else if c == b'2'
    then (k, heap_page)
    else if c == b'3'
    then (k, kernel_int)
    else (record k { terminal = putchar c k.terminal }, no_trial)

abbrev pub shift_key : ℕ → Bool
shift_key scancode = (scancode == 42) || (scancode == 54)

-- The branch of a key that is let go, and that of a key that is pressed.
unfoldable pub release : ℕ → Keyboard → Keyboard
release scancode k = if shift_key (scancode - 128) then record k { kb_shift_flag = 0 } else k

unfoldable pub press : ℕ → Keyboard → Keyboard × Trial
press scancode k =
    if shift_key scancode
    then (record k { kb_shift_flag = 1 }, no_trial)
    else show (kbdus scancode) (store (kbdus scancode) k)

-- `keyboard_handler` behind the read of the scancode.
unfoldable pub handle : ℕ → Keyboard → Keyboard × Trial
handle scancode k =
    let k1 = leds scancode (store_raw scancode k) in
    if bit scancode 7 then (release scancode k1, no_trial) else press scancode k1

-- The scancode at the data port, and the keyboard behind its read.
unfoldable pub read_scancode : Keyboard → ℕ × Keyboard
read_scancode k =
    let (scancode, b) = inport8 0x60 k.terminal.bus in
    (scancode, record k { wait_set = 0; terminal = record k.terminal { bus = b } })

unfoldable pub keyboard_handler : Keyboard → Keyboard × Trial
keyboard_handler k = handle (read_scancode k).0 (read_scancode k).1

-- `handler` is the address of `keyboard_handler`.
unfoldable pub keyboard_install : ℕ → Cpu → Cpu
unfolding irq_install_handler
keyboard_install handler c = irq_install_handler 1 handler c

-- `while(wait)` tests the address of the function itself, which is not 0.
spin : ℕ → Keyboard → Option Keyboard
spin zero k = none
spin (suc f) k = spin f k

unfoldable pub wait : ℕ → Keyboard → Option Keyboard
unfolding spin
wait f k = spin f (record k { wait_set = 1 })
