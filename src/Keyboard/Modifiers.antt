-- ===== src/Keyboard/Modifiers.antt =====
-- The shift and caps lock flags through a sequence of interrupts, kernel/kernel/kb.c.
use comet_os.Base.{
  inr, inl, Bool-cases, false, true, ℕ, ◌+◌, ◌%◌, ◌<◌, ◌≡◌, refl, ap, ◌∙◌, arith, List, [], ◌∷◌,
  ◌==◌, ◌||◌, bit, if◌then◌else◌, if_both,
}
use comet_os.Keyboard.{
  Keyboard, store_raw, store, leds, led, show, release, press, handle, read_scancode,
  keyboard_handler, kbdus,
}

-- Keyboard interrupts, one after the other, with the scancodes that they read.
pub data Run : List ℕ → Keyboard → Keyboard → Type 0 where
  ended : (k : Keyboard) → Run [] k k
  interrupt :
      (codes : List ℕ) (k k' : Keyboard)
      → Run codes (keyboard_handler k).0 k'
      → Run ((read_scancode k).0 ∷ codes) k k'

-- What the flags should be: a shift key sets the one when it is pressed and clears it when it is let
-- go, and each press of caps lock turns the other.
abbrev pub shift_next : ℕ → ℕ → ℕ
shift_next code flag =
    if (code == 42) || (code == 54)
    then 1
    else if (code == 42 + 128) || (code == 54 + 128)
    then 0
    else flag

pub shift_after : List ℕ → ℕ → ℕ
shift_after [] flag = flag
shift_after (code ∷ codes) flag = shift_after codes (shift_next code flag)

pub caps_presses : List ℕ → ℕ
caps_presses [] = 0
caps_presses (code ∷ codes) = (if code == 0x3a then 1 else 0) + caps_presses codes

-- The flags behind one scancode.
abbrev Flags : ℕ → ℕ → Keyboard → Type 0
Flags shift caps k = (k.kb_shift_flag ≡ shift) × (k.kb_caps_flag ≡ caps)

store_raw-Flags :
    (scancode shift caps : ℕ) (k : Keyboard)
    → Flags shift caps k
    → Flags shift caps (store_raw scancode k)
unfolding store_raw
store_raw-Flags scancode shift caps k before = if_both (Flags shift caps) _ _ _ before before

leds-Flags :
    (scancode shift caps : ℕ) (k : Keyboard)
    → caps < 2
    → Flags shift caps k
    → Flags shift ((caps + (if scancode == 0x3a then 1 else 0)) % 2) (leds scancode k)
unfolding leds led
leds-Flags scancode shift caps k small (up, lock) = (ground arith, ground arith)

show-Flags :
    (c shift caps : ℕ) (k : Keyboard) → Flags shift caps k → Flags shift caps (show c (store c k)).0
unfolding show store
show-Flags c shift caps k (up, lock) = (ground arith, ground arith)

press-Flags :
    (scancode shift caps : ℕ) (k : Keyboard)
    → bit scancode 7 ≡ false
    → Flags shift caps k
    → Flags (shift_next scancode shift) caps (press scancode k).0
unfolding press
press-Flags scancode shift caps k low before =
    let shown = show-Flags (kbdus scancode) shift caps k before in (ground arith, ground arith)

release-Flags :
    (scancode shift caps : ℕ) (k : Keyboard)
    → bit scancode 7 ≡ true
    → Flags shift caps k
    → Flags (shift_next scancode shift) caps (release scancode k)
unfolding release
release-Flags scancode shift caps k high (up, lock) = (ground arith, ground arith)

handle-Flags :
    (code shift caps : ℕ) (k : Keyboard)
    → caps < 2
    → Flags shift caps k
    → Flags (shift_next code shift) ((caps + (if code == 0x3a then 1 else 0)) % 2) (handle code k).0
unfolding handle
handle-Flags code shift caps k small before =
    let k1 = leds code (store_raw code k) in
    let turned = (caps + (if code == 0x3a then 1 else 0)) % 2 in
    let lit : Flags shift turned k1 =
      leds-Flags code shift caps (store_raw code k) small
        (store_raw-Flags code shift caps k before) in
    elim (Bool-cases (bit code 7)) [
      | inl high ↦ rw (handle, high) (release-Flags code shift turned k1 high lit)
      | inr low ↦ rw (handle, low) (press-Flags code shift turned k1 low lit)
    ]

-- One interrupt.
keyboard_handler-Flags :
    (k : Keyboard)
    → k.kb_caps_flag < 2
    → Flags
        (shift_next (read_scancode k).0 k.kb_shift_flag)
        ((k.kb_caps_flag + (if (read_scancode k).0 == 0x3a then 1 else 0)) % 2)
        (keyboard_handler k).0
unfolding keyboard_handler read_scancode
keyboard_handler-Flags k small =
    handle-Flags (read_scancode k).0 k.kb_shift_flag k.kb_caps_flag (read_scancode k).1 small
      (refl, refl)

-- Behind any sequence of keyboard interrupts the shift flag is 1 if a shift key was the last of
-- them to be pressed and not let go since, 0 if the last one was let go, and as before if none was
-- touched; and the caps lock flag, 0 or 1 before, has turned once for each press of that key.
Run-flags :
    (codes : List ℕ) (k k' : Keyboard)
    → k.kb_caps_flag < 2
    → Run codes k k'
    → (k'.kb_shift_flag ≡ shift_after codes k.kb_shift_flag)
      × (k'.kb_caps_flag ≡ (k.kb_caps_flag + caps_presses codes) % 2)
unfolding shift_after caps_presses
Run-flags _ _ _ small (ended k) = (refl, omega arith)
Run-flags _ _ _ small (interrupt rest k k' run) =
    let (up, lock) = keyboard_handler-Flags k small in
    let (shift, caps) = Run-flags rest (keyboard_handler k).0 k' (omega (arith, lock)) run in
    (shift ∙ ap (shift_after rest) up, omega (arith, caps, lock))
