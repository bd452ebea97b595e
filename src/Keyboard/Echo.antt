-- ===== src/Keyboard/Echo.antt =====
-- What typing shows on the screen, kernel/kernel/kb.c.
use comet_os.Base.{
  sym, arith, ℕ, ◌≡◌, refl, ap, ◌∙◌, List, [], ◌∷◌, ◌++◌, ◌==◌, ◌||◌, bit, if◌then◌else◌, false,
  inl, inr, Bool-cases,
}
use comet_os.Terminal.{Terminal, putchar, write}
use comet_os.Keyboard.{
  Keyboard, store_raw, store, leds, show, release, press, handle, kbdus, shift_key,
}

-- The handler behind the reads of the scancodes, one after the other.
unfoldable pub handle_all : List ℕ → Keyboard → Keyboard
handle_all [] k = k
handle_all (code ∷ codes) k = handle_all codes (handle code k).0

-- The keys that do more than to show their character: the three locks and the three trials.
abbrev pub IsPlain : ℕ → Type 0
IsPlain code =
    ((code == 0x3a) ≡ false)
    × ((code == 0x45) ≡ false)
    × ((code == 0x46) ≡ false)
    × ((kbdus code == b'1') ≡ false)
    × ((kbdus code == b'2') ≡ false)
    × ((kbdus code == b'3') ≡ false)

unfoldable pub ArePlain : List ℕ → Type 0
ArePlain [] = Unit
ArePlain (code ∷ codes) = IsPlain code × ArePlain codes

-- The characters of the keys that are pressed, without the shift keys.
unfoldable pub typed : List ℕ → List ℕ
typed [] = []
typed (code ∷ codes) = (if bit code 7 || shift_key code then [] else kbdus code ∷ []) ++ typed codes

write-append : (a b : List ℕ) (t : Terminal) → write (a ++ b) t ≡ write b (write a t)
unfolding write
write-append [] b t = refl
write-append (c ∷ a) b t = write-append a b (putchar c t)

store_raw-terminal : (code : ℕ) (k : Keyboard) → (store_raw code k).terminal ≡ k.terminal
unfolding store_raw
store_raw-terminal code k = ground arith

store-terminal : (c : ℕ) (k : Keyboard) → (store c k).terminal ≡ k.terminal
unfolding store
store-terminal c k = ground arith

leds-plain : (code : ℕ) (k : Keyboard) → IsPlain code → leds code k ≡ k
unfolding leds
leds-plain code k (caps, num, scroll, one, two, three) = rw (caps, num, scroll) refl

release-terminal : (code : ℕ) (k : Keyboard) → (release code k).terminal ≡ k.terminal
unfolding release
release-terminal code k = ground arith

show-terminal :
    (code : ℕ) (k : Keyboard)
    → IsPlain code
    → (show (kbdus code) k).0.terminal ≡ putchar (kbdus code) k.terminal
unfolding show
show-terminal code k (caps, num, scroll, one, two, three) = rw (one, two, three) refl

handle-typed :
    (code : ℕ) (k : Keyboard)
    → IsPlain code
    → (handle code k).0.terminal
      ≡ write (if bit code 7 || shift_key code then [] else kbdus code ∷ []) k.terminal
unfolding handle press write
handle-typed code k plain =
    let k1 = store_raw code k in
    let lit = leds-plain code k1 plain in
    elim (Bool-cases (bit code 7)) [
      | inl high ↦ rw (handle, lit, high) (release-terminal code k1 ∙ store_raw-terminal code k)
      | inr low ↦ elim (Bool-cases (shift_key code)) [
        | inl shift ↦ rw (handle, lit, low, shift) (store_raw-terminal code k)
        | inr other ↦
            rw (handle, lit, low, other)
              (show-terminal code (store (kbdus code) k1) plain
                ∙ ap (putchar (kbdus code))
                    (store-terminal (kbdus code) k1 ∙ store_raw-terminal code k))
      ]
    ]

-- The scancodes of any keys but the locks and those of the digits 1 to 3, pressed or let go, show
-- the characters of the keys pressed, in order: the keyboard writes them to the terminal as
-- `terminal_write` does. The shift and the caps lock flags change none of them.
pub handle_all-typed :
    (codes : List ℕ) (k : Keyboard)
    → ArePlain codes
    → (handle_all codes k).terminal ≡ write (typed codes) k.terminal
unfolding handle_all ArePlain typed write
handle_all-typed [] k plain = refl
handle_all-typed (code ∷ codes) k (plain, all) =
    let rest = handle_all-typed codes (handle code k).0 all in
    let first = handle-typed code k plain in
    rest
    ∙ ap (write (typed codes)) first
    ∙ sym (
        write-append (if bit code 7 || shift_key code then [] else kbdus code ∷ []) (typed codes)
          k.terminal)
