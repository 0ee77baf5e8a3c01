-- ===== src/Sync/Outage.antt =====
-- Runs of polls: what the record of reachability says of them.
use rove.Base.{ℕ, suc, ◌+◌, min}
use rove.Base.{◌≡◌, refl, ap, Bool, true, false, Option, none, some, List, [], ◌∷◌, arith}
use rove.Base.{length}
use rove.Base.{sym, ◌∙◌}
use rove.Sync.{SyncHealth, no_attempt, record_health, get_or_insert, max_failures}

-- The polls with their times, the newest first.
unfoldable pub recorded : List (ℕ × Bool) → SyncHealth
recorded [] = no_attempt
recorded ((now, success) ∷ polls) = record_health (recorded polls) now success

-- The times of the failures since the last success, the newest first.
unfoldable pub outage : List (ℕ × Bool) → List ℕ
outage [] = []
outage ((now, true) ∷ polls) = []
outage ((now, false) ∷ polls) = now ∷ outage polls

unfoldable pub last_success : List (ℕ × Bool) → Option ℕ
last_success [] = none
last_success ((now, true) ∷ polls) = some now
last_success ((now, false) ∷ polls) = last_success polls

unfoldable pub oldest : List ℕ → Option ℕ
oldest [] = none
oldest (t ∷ []) = some t
oldest (t ∷ u ∷ ts) = oldest (u ∷ ts)

insert-oldest : (t : ℕ) (ts : List ℕ) → get_or_insert t (oldest ts) ≡ oldest (t ∷ ts)
unfolding oldest
insert-oldest t [] = refl
insert-oldest t (u ∷ ts) =
    ap (get_or_insert t) (sym (insert-oldest u ts)) ∙ (kept u (oldest ts) ∙ insert-oldest u ts)
  where
    kept : (u : ℕ) (o : Option ℕ) → get_or_insert t (get_or_insert u o) ≡ get_or_insert u o
    kept u none = refl
    kept u (some v) = refl

failures-step :
    (c n : ℕ) → c ≡ min n max_failures → min (c + 1) max_failures ≡ min (suc n) max_failures
failures-step c n h = omega arith

pub recorded_since :
    (polls : List (ℕ × Bool)) → (recorded polls).failure_since_unix_secs ≡ oldest (outage polls)
unfolding recorded record_health outage oldest
recorded_since [] = refl
recorded_since ((now, true) ∷ polls) = refl
recorded_since ((now, false) ∷ polls) =
    ap (get_or_insert now) (recorded_since polls) ∙ insert-oldest now (outage polls)

pub recorded_failures :
    (polls : List (ℕ × Bool))
    → (recorded polls).consecutive_failures ≡ min (length (outage polls)) max_failures
unfolding recorded record_health outage
recorded_failures [] = refl
recorded_failures ((now, true) ∷ polls) = refl
recorded_failures ((now, false) ∷ polls) =
    failures-step (recorded polls).consecutive_failures (length (outage polls))
      (recorded_failures polls)

pub recorded_success :
    (polls : List (ℕ × Bool)) → (recorded polls).last_success_unix_secs ≡ last_success polls
unfolding recorded record_health last_success
recorded_success [] = refl
recorded_success ((now, true) ∷ polls) = refl
recorded_success ((now, false) ∷ polls) = recorded_success polls

-- After any polls the record says what the polls did: the start of the outage is the time of the
-- first failure since the last success, none when the last poll succeeded, the failures are
-- counted from there and stop at 2^32 - 1, and the last success is the newest one.
pub recorded_lem :
    (polls : List (ℕ × Bool))
    → ((recorded polls).failure_since_unix_secs ≡ oldest (outage polls))
      × ((recorded polls).consecutive_failures ≡ min (length (outage polls)) max_failures)
      × ((recorded polls).last_success_unix_secs ≡ last_success polls)
recorded_lem polls = (recorded_since polls, recorded_failures polls, recorded_success polls)
