-- ===== src/Keyboard/Tests.antt =====
-- The keyboard's theorems at a keyboard whose device answers with caps lock, and at typing "Hi":
-- shift, h, the two let go, and i.
use comet_os.Base.{ℕ, ◌≡◌, refl, arith, List, [], ◌∷◌}
use comet_os.Terminal.{Terminal, write}
use comet_os.Keyboard.{Keyboard, keyboard_handler, read_scancode, kbdus}
use comet_os.Keyboard.Buffers.{Contained, keyboard_handler-Contained}
use comet_os.Keyboard.Echo.{handle_all, ArePlain, typed, handle_all-typed}

abbrev terminal : Terminal
terminal = record {
  row = 0;
  column = 0;
  color = 7;
  buffer = λ j. 0;
  bus = record { history = []; answer = λ h p. 0x3a };
}

-- All variables are 0 at the start, the two pointers included.
abbrev keyboard : Keyboard
keyboard = record {
  kb_buffer = 0;
  kb_buffer_raw = 0;
  kb_count = 0;
  kb_count_raw = 0;
  kb_ltmp = 0;
  kb_shift_flag = 0;
  kb_caps_flag = 0;
  wait_set = 0;
  memory = λ j. 0;
  terminal = terminal;
}

keyboard_handler-Contained_example : Contained 256 0 0 (λ j. 0) (keyboard_handler keyboard).0
keyboard_handler-Contained_example =
    keyboard_handler-Contained 0 0 (λ j. 0) keyboard (refl, omega arith, refl, refl, λ j a b. refl)

abbrev after_one : Keyboard
after_one = (keyboard_handler keyboard).0

abbrev after_two : Keyboard
after_two = (keyboard_handler after_one).0

abbrev codes : List ℕ
codes = (read_scancode keyboard).0 ∷ (read_scancode after_one).0 ∷ []

abbrev capital : List ℕ
capital = 42 ∷ 35 ∷ 163 ∷ 170 ∷ 23 ∷ []

handle_all-typed_example :
    (handle_all capital keyboard).terminal ≡ write (b'h' ∷ b'i' ∷ []) terminal
unfolding ArePlain typed kbdus
handle_all-typed_example = handle_all-typed capital keyboard search
