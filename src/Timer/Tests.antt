-- ===== src/Timer/Tests.antt =====
-- The timer's theorems at 100 Hz and at a sleep of two ticks.
use comet_os.Base.{List, [], ◌∷◌}
use comet_os.Base.Bus.{Bus}
use comet_os.Timer.{Wake, timer, other, early}

abbrev bus : Bus
bus = record { history = []; answer = λ h p. 0 }

-- The second tick comes between a test and `hlt`.
abbrev wakes : List Wake
wakes = timer ∷ early ∷ other ∷ timer ∷ timer ∷ []
