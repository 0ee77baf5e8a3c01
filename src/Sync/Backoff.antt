-- ===== src/Sync/Backoff.antt =====
-- Bounds of the pause between two polls.
use rove.Base.{ℕ, zero, suc, ◌+◌, ◌-◌, ◌*◌, ◌%◌, ◌^◌, ◌≤◌, ◌<◌, min, max}
use rove.Base.{◌≡◌, sym, ap, false, arith}
use rove.Base.{◌==◌}
use mathlib.Core.Path.{subst}
use native.Mathlib.Nat.{zero-add, suc-add, mul-le-mul_left}
use rove.Sync.{Duration, next_poll_delay, multiplier, max_poll_backoff_secs}

abbrev delay : ℕ → ℕ → ℕ
delay b m = min (min (b * m) (2 ^ 64 - 1)) (max max_poll_backoff_secs b)

capped : (f : ℕ) → min (suc (suc (suc (suc (suc f))))) 5 ≡ 5
capped f = omega arith

multiplier_full : (f : ℕ) → multiplier (suc (suc (suc (suc (suc f))))) ≡ 32
multiplier_full f = ap (λ k. 2 ^ k % 2 ^ 64) (capped f)

multiplier-doubles : (f : ℕ) → (1 ≤ multiplier f) × (multiplier f ≤ multiplier (suc f))
multiplier-doubles zero = (omega arith, omega arith)
multiplier-doubles (suc zero) = (omega arith, omega arith)
multiplier-doubles (suc (suc zero)) = (omega arith, omega arith)
multiplier-doubles (suc (suc (suc zero))) = (omega arith, omega arith)
multiplier-doubles (suc (suc (suc (suc zero)))) = (omega arith, omega arith)
multiplier-doubles (suc (suc (suc (suc (suc f))))) =
    (omega (arith, multiplier_full f), omega (arith, multiplier_full f, multiplier_full (suc f)))

multiplier-grows_by : (f d : ℕ) → multiplier f ≤ multiplier (d + f)
multiplier-grows_by f zero =
    subst (λ n. multiplier f ≤ multiplier n) (sym (zero-add f)) (omega arith)
multiplier-grows_by f (suc d) =
    subst (λ n. multiplier f ≤ multiplier n) (sym (suc-add d f))
      (omega (arith, multiplier-grows_by f d, (multiplier-doubles (d + f)).1))

multiplier-grows : (f g : ℕ) → f ≤ g → multiplier f ≤ multiplier g
multiplier-grows f g l =
    subst (λ n. multiplier f ≤ multiplier n) (omega arith) (multiplier-grows_by f (g - f))

delay-bounds :
    (b m n : ℕ)
    → b < 2 ^ 64
    → 1 ≤ b
    → 1 ≤ m
    → m ≤ n
    → (b ≤ delay b m) × (delay b m ≤ delay b n) × (delay b n ≤ max max_poll_backoff_secs b)
delay-bounds b m n h p q l = ground (arith, mul-le-mul_left b l, mul-le-mul_left b q)

positive : (f : ℕ) → (suc f == 0) ≡ false
positive f = ground arith

backed_off :
    (base : Duration) (f : ℕ)
    → (next_poll_delay base (suc f)).secs ≡ delay (max base.secs 1) (multiplier (suc f))
unfolding next_poll_delay
backed_off base f = rw (positive f)

-- The pause is at least the configured one and grows with the failures up to a limit: five minutes,
-- or the configured seconds if they are more.
pub next_poll_delay-grows :
    (base : Duration) (f g : ℕ)
    → base.secs < 2 ^ 64
    → f ≤ g
    → (base.secs ≤ (next_poll_delay base f).secs)
      × ((next_poll_delay base f).secs ≤ (next_poll_delay base g).secs)
      × ((next_poll_delay base g).secs ≤ max max_poll_backoff_secs base.secs)
unfolding next_poll_delay
next_poll_delay-grows base zero zero h l = (omega arith, omega arith, omega arith)
next_poll_delay-grows base zero (suc g) h l = omega (
  arith,
  backed_off base g,
  delay-bounds (max base.secs 1) 1 (multiplier (suc g)) (omega arith) (omega arith) (omega arith)
      (multiplier-doubles (suc g)).0,
)
next_poll_delay-grows base (suc f) (suc g) h l = omega (
  arith,
  backed_off base f,
  backed_off base g,
  delay-bounds (max base.secs 1) (multiplier (suc f)) (multiplier (suc g)) (omega arith)
      (omega arith) (multiplier-doubles (suc f)).0 (multiplier-grows (suc f) (suc g) l),
)
next_poll_delay-grows base (suc f) zero h l = omega arith
