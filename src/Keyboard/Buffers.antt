-- ===== src/Keyboard/Buffers.antt =====
-- Where the keyboard's handler stores, kernel/kernel/kb.c.
use comet_os.Base.{◌-◌, ℕ, ◌+◌, ◌≤◌, ◌<◌, ◌≡◌, ◌⊎◌, arith, bit, ◌==◌, if_both}
use comet_os.Libc.Mem.{Bytes}
use comet_os.Keyboard.{
  Keyboard, Trial, keyboard_handler, read_scancode, shift_key, store_raw, store, leds, handle, led,
  show, release, press, kbdus,
}

-- The buffers stand at `p` and `q`, the positions are in range up to `limit`, and every byte outside
-- the buffers, of 256 bytes for the characters and of 255 for the raw data, is that of `m`.
abbrev pub Contained : ℕ → ℕ → ℕ → Bytes → Keyboard → Type 0
Contained limit p q m k =
    (k.kb_count ≡ 0)
    × (k.kb_count_raw ≤ limit)
    × (k.kb_buffer ≡ p)
    × (k.kb_buffer_raw ≡ q)
    × ((j : ℕ) → (j < q) ⊎ (q + 255 ≤ j) → (j < p) ⊎ (p + 256 ≤ j) → k.memory j ≡ m j)

store_raw-Contained :
    (scancode p q : ℕ) (m : Bytes) (k : Keyboard)
    → Contained 256 p q m k
    → Contained 255 p q m (store_raw scancode k)
unfolding store_raw
store_raw-Contained scancode p q m k (count, raw, at, raw_at, outside) = (
  ground arith,
  ground arith,
  ground arith,
  ground arith,
  λ j a b. let same = outside j a b in ground arith,
)

store-Contained :
    (c p q : ℕ) (m : Bytes) (k : Keyboard) → Contained 255 p q m k → Contained 256 p q m (store c k)
unfolding store
store-Contained c p q m k (count, raw, at, raw_at, outside) = (
  ground arith,
  ground arith,
  ground arith,
  ground arith,
  λ j a b. let same = outside j a b in ground arith,
)

leds-Contained :
    (scancode p q : ℕ) (m : Bytes) (k : Keyboard)
    → Contained 255 p q m k
    → Contained 255 p q m (leds scancode k)
unfolding leds led
leds-Contained scancode p q m k before =
    if_both (Contained 255 p q m) (scancode == 0x3a) _ _ before (
      if_both (Contained 255 p q m) (scancode == 0x45) _ _ before
        (if_both (Contained 255 p q m) (scancode == 0x46) _ k before before))

show-Contained :
    (c p q : ℕ) (m : Bytes) (k : Keyboard)
    → Contained 256 p q m k
    → Contained 256 p q m (show c k).0
unfolding show
show-Contained c p q m k before =
    let P : Keyboard × Trial → Type 0 = λ r. Contained 256 p q m r.0 in
    if_both P (c == b'1') _ _ before
      (if_both P (c == b'2') _ _ before (if_both P (c == b'3') _ _ before before))

wider-Contained :
    (p q : ℕ) (m : Bytes) (k : Keyboard) → Contained 255 p q m k → Contained 256 p q m k
wider-Contained p q m k (count, raw, at, raw_at, outside) =
    (count, omega arith, at, raw_at, outside)

press-Contained :
    (scancode p q : ℕ) (m : Bytes) (k : Keyboard)
    → Contained 255 p q m k
    → Contained 256 p q m (press scancode k).0
unfolding press
press-Contained scancode p q m k before =
    if_both (λ (r : Keyboard × Trial). Contained 256 p q m r.0) (shift_key scancode) _ _
      (wider-Contained p q m k before)
      (show-Contained (kbdus scancode) p q m (store (kbdus scancode) k)
        (store-Contained (kbdus scancode) p q m k before))

release-Contained :
    (scancode p q : ℕ) (m : Bytes) (k : Keyboard)
    → Contained 255 p q m k
    → Contained 256 p q m (release scancode k)
unfolding release
release-Contained scancode p q m k before =
    let wider = wider-Contained p q m k before in
    if_both (Contained 256 p q m) (shift_key (scancode - 128)) _ _ wider wider

-- Behind any interrupt, when the position of the raw buffer is at most 256 and that of the other one
-- 0, this holds again, the buffers stand where they stood, and what the handler stores of its own is
-- within the 255 bytes of the raw buffer and the 256 bytes of the other one. The terminal's cells, on
-- which it shows the character, and what the keys 1 to 3 allocate and write are no part of this memory.
pub keyboard_handler-Contained :
    (p q : ℕ) (m : Bytes) (k : Keyboard)
    → Contained 256 p q m k
    → Contained 256 p q m (keyboard_handler k).0
unfolding keyboard_handler handle read_scancode
keyboard_handler-Contained p q m k before =
    let scancode = (read_scancode k).0 in
    let k1 = leds scancode (store_raw scancode (read_scancode k).1) in
    let inside : Contained 255 p q m k1 =
      leds-Contained scancode p q m (store_raw scancode (read_scancode k).1)
        (store_raw-Contained scancode p q m (read_scancode k).1 before) in
    if_both (λ (r : Keyboard × Trial). Contained 256 p q m r.0) (bit scancode 7) _ _
      (release-Contained scancode p q m k1 inside) (press-Contained scancode p q m k1 inside)
