-- ===== src/Worker/Slots/Gate.antt =====
-- IncrementTask and DecrementTask called by many goroutines at once. Each reads the counter first
-- outside the lock; IncrementTask tests it again under the lock, DecrementTask does not.
use filecoin_sealer.Prelude.{
  ℕ, zero, suc, ◌≡◌, List, [], ◌∷◌, ℤ, pos, negsuc, eq_ℤ, leb_ℤ, ◌+ℤ◌, ◌-ℤ◌, ◌≤ℤ◌, ◌<ℤ◌,
  if◌then◌else◌, arith,
}

-- One stage: its counter, and the calls that have passed the first test and wait for the lock.
pub record Gate : Type 0 where
  pub running : ℤ
  pub taking : ℕ
  pub giving : ℕ

-- What some goroutine does next.
pub data Event : Type 0 where
  take_checks take_locks give_checks give_locks : Event

abbrev pub take_check : ℤ → Gate → Gate
take_check limit g = if leb_ℤ limit g.running then g else record g { taking = suc g.taking }

abbrev pub take_lock : ℤ → ℕ → Gate → Gate
take_lock limit zero g = g
take_lock limit (suc n) g =
    if leb_ℤ limit g.running
    then record g { taking = n }
    else record g { taking = n; running = g.running +ℤ pos 1 }

abbrev pub give_check : Gate → Gate
give_check g = if eq_ℤ (pos 0) g.running then g else record g { giving = suc g.giving }

abbrev pub give_lock : ℕ → Gate → Gate
give_lock zero g = g
give_lock (suc n) g = record g { giving = n; running = g.running -ℤ pos 1 }

unfoldable pub step : ℤ → Event → Gate → Gate
step limit take_checks g = take_check limit g
step limit take_locks g = take_lock limit g.taking g
step limit give_checks g = give_check g
step limit give_locks g = give_lock g.giving g

unfoldable pub run : ℤ → List Event → Gate → Gate
run limit [] g = g
run limit (e ∷ es) g = run limit es (step limit e g)

step-le_limit :
    (limit : ℤ) (e : Event) (g : Gate) → g.running ≤ℤ limit → (step limit e g).running ≤ℤ limit
unfolding step ◌+ℤ◌ ◌-ℤ◌
step-le_limit limit e g h = ground arith

-- However calls of IncrementTask and DecrementTask interleave, a counter that starts at most at the
-- limit stays so.
pub run-le_limit :
    (limit : ℤ) (es : List Event) (g : Gate)
    → g.running ≤ℤ limit
    → (run limit es g).running ≤ℤ limit
unfolding run
run-le_limit limit [] g h = h
run-le_limit limit (e ∷ es) g h = run-le_limit limit es (step limit e g) (step-le_limit limit e g h)

abbrev pub two_givers : List Event
two_givers = give_checks ∷ give_checks ∷ give_locks ∷ give_locks ∷ []

-- Two calls of DecrementTask that both see a counter of one take it to minus one.
pub two_givers_underflow :
    (limit : ℤ) (g : Gate) → g.running ≡ pos 1 → (run limit two_givers g).running ≡ negsuc 0
unfolding run step ◌-ℤ◌
two_givers_underflow limit g h = ground arith

-- A call of DecrementTask begins only for a task that is counted and has none under way.
abbrev pub IsEarned : Event → Gate → Type 0
IsEarned give_checks g = pos g.giving <ℤ g.running
IsEarned _ g = Unit {0}

abbrev pub AllEarned : ℤ → List Event → Gate → Type 0
AllEarned limit [] g = Unit {0}
AllEarned limit (e ∷ es) g = IsEarned e g × AllEarned limit es (step limit e g)

step_covered :
    (limit : ℤ) (e : Event) (g : Gate)
    → IsEarned e g
    → pos g.giving ≤ℤ g.running
    → pos (step limit e g).giving ≤ℤ (step limit e g).running
unfolding step ◌+ℤ◌ ◌-ℤ◌
step_covered limit give_checks g d h = ground arith
step_covered limit e g d h = ground arith

-- If the counter starts no lower than the calls of DecrementTask that are under way, and at each
-- new one more tasks are counted than calls are under way, the counter does not fall below zero,
-- however the calls interleave.
pub run_nonneg :
    (limit : ℤ) (es : List Event) (g : Gate)
    → pos g.giving ≤ℤ g.running
    → AllEarned limit es g
    → pos 0 ≤ℤ (run limit es g).running
unfolding run
run_nonneg limit [] g h d = omega arith
run_nonneg limit (e ∷ es) g h d =
    run_nonneg limit es (step limit e g) (step_covered limit e g d.0 h) d.1
