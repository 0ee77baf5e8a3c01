-- ===== src/Sync/Tests.antt =====
-- Concrete runs of polls.
use rove.Base.{ℕ, ◌≤◌, min, max}
use rove.Base.{◌≡◌, refl, Bool, true, false, some, List, [], ◌∷◌, arith}
use rove.Base.{length}
use rove.Sync.{Duration, next_poll_delay, max_failures, max_poll_backoff_secs}
use rove.Sync.Outage.{recorded, outage, oldest, last_success, recorded_lem}
use rove.Sync.Backoff.{next_poll_delay-grows}

abbrev three_polls : List (ℕ × Bool)
three_polls = (30, false) ∷ (20, false) ∷ (10, true) ∷ []

three_polls_since : oldest (outage three_polls) ≡ some 20
unfolding oldest outage
three_polls_since = refl

recorded_lem_example :
    ((recorded three_polls).failure_since_unix_secs ≡ oldest (outage three_polls))
    × ((recorded three_polls).consecutive_failures ≡ min (length (outage three_polls)) max_failures)
    × ((recorded three_polls).last_success_unix_secs ≡ last_success three_polls)
recorded_lem_example = recorded_lem three_polls

abbrev ten_seconds : Duration
ten_seconds = record { secs = 10; nanos = 0 }

fourth_delay : (next_poll_delay ten_seconds 4).secs ≡ 160
unfolding next_poll_delay
fourth_delay = refl

next_poll_delay-grows_example :
    (10 ≤ (next_poll_delay ten_seconds 2).secs)
    × ((next_poll_delay ten_seconds 2).secs ≤ (next_poll_delay ten_seconds 9).secs)
    × ((next_poll_delay ten_seconds 9).secs ≤ max max_poll_backoff_secs 10)
next_poll_delay-grows_example = next_poll_delay-grows ten_seconds 2 9 (omega arith) (omega arith)
