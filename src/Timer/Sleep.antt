-- ===== src/Timer/Sleep.antt =====
-- `sleep` of kernel/arch/i386/pit.c.
use comet_os.Base.{ℕ, suc, ◌+◌, ◌≤◌, ◌<◌, ◌^◌, ◌≡◌, Bool, List, [], ◌∷◌, some, if◌then◌else◌}
use comet_os.Timer.{Wake, timer, other, early, sleep_until}

-- How many of the interrupts are the timer's, how many of these wake the processor, and how many come
-- between a test and `hlt`.
abbrev pub timers : List Wake → ℕ
timers [] = 0
timers (timer ∷ wakes) = suc (timers wakes)
timers (other ∷ wakes) = timers wakes
timers (early ∷ wakes) = suc (timers wakes)

abbrev pub wakings : List Wake → ℕ
wakings [] = 0
wakings (timer ∷ wakes) = suc (wakings wakes)
wakings (other ∷ wakes) = wakings wakes
wakings (early ∷ wakes) = wakings wakes

abbrev pub earlies : List Wake → ℕ
earlies [] = 0
earlies (timer ∷ wakes) = earlies wakes
earlies (other ∷ wakes) = earlies wakes
earlies (early ∷ wakes) = suc (earlies wakes)

-- How the loop ends, when `e` of the ticks have come before a `hlt`.
abbrev Slept : Bool → ℕ → List Wake → ℕ → ℕ → Type 0
Slept tested e wakes eticks now =
    (final : ℕ) × (left : List Wake) × (sleep_until wakes tested eticks now ≡ some (final, left))
    × (eticks ≤ final)
    × (final ≤ eticks + e + earlies wakes)
    × (final + timers left ≡ now + timers wakes)

abbrev Sleeps : List Wake → Type 0
Sleeps wakes =
    (tested : Bool) (e eticks now : ℕ)
    → eticks < 2 ^ 31
    → now + timers wakes < 2 ^ 31
    → eticks ≤ now + wakings wakes
    → (if tested then 1 else 0) + now ≤ eticks + e
    → (if tested then 1 else 0) ≤ wakings wakes
    → Slept tested e wakes eticks now
