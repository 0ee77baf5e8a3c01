-- ===== src/Sync.antt =====
-- The reachability of the control plane and the pause between polls, src/sync/mod.rs.
pub mod Outage
pub mod Backoff
mod Tests
use rove.Base.{
  ℕ, zero, suc, ◌+◌, ◌-◌, ◌*◌, ◌/◌, ◌%◌, ◌^◌, ◌≤◌, ◌<◌, min, max, bit_and, bit_or, bit_xor,
}
use rove.Base.{
  ◌≡◌, refl, sym, ap, ◌∙◌, ◌≢◌, ◌↔◌, ◌⊎◌, inl, inr, Bool, true, false, not, ◌&&◌, ◌||◌, Option,
  none, some, List, [], ◌∷◌, ◌++◌, map, arith,
}
use rove.Base.{
  ltb, leb, ◌==◌, if◌then◌else◌, ltb→lt, lt→ltb, leb→le, le→leb, le→ltb_false, ==_iff, Bool-cases,
  Option-cases,
}
use rove.Base.{
  drop-append_add, All-take, All-append, replicate, length, get_elem?, set, take, drop, any, all,
  All, length-append, length-take, length-drop, take-append_length, drop-append_length,
  take-append-drop, any-append, length-set, get_elem?-set_self, get_elem?-set_ne,
}

pub record SyncHealth : Type 0 where
  pub last_attempt_unix_secs : Option ℕ
  pub last_success_unix_secs : Option ℕ
  pub failure_since_unix_secs : Option ℕ
  pub consecutive_failures : ℕ

-- `SyncHealth::default()`
abbrev pub no_attempt : SyncHealth
no_attempt = record {
  last_attempt_unix_secs = none;
  last_success_unix_secs = none;
  failure_since_unix_secs = none;
  consecutive_failures = 0;
}

-- `get_or_insert(now)`
abbrev pub get_or_insert : ℕ → Option ℕ → Option ℕ
get_or_insert now none = some now
get_or_insert now (some t) = some t

abbrev pub max_failures : ℕ
max_failures = 2 ^ 32 - 1

-- With the answer of the clock, and whether the poll succeeded.
unfoldable pub record_health : SyncHealth → ℕ → Bool → SyncHealth
record_health health now true = record {
  last_attempt_unix_secs = some now;
  last_success_unix_secs = some now;
  failure_since_unix_secs = none;
  consecutive_failures = 0;
}
record_health health now false = record {
  last_attempt_unix_secs = some now;
  last_success_unix_secs = health.last_success_unix_secs;
  failure_since_unix_secs = get_or_insert now health.failure_since_unix_secs;
  consecutive_failures = min (health.consecutive_failures + 1) max_failures;
}

-- The time of a `Duration`: seconds and the nanoseconds that remain.
pub record Duration : Type 0 where
  pub secs : ℕ
  pub nanos : ℕ

abbrev pub max_poll_backoff_secs : ℕ
max_poll_backoff_secs = 300

-- `1u64 << consecutive_failures.min(5)`
abbrev pub multiplier : ℕ → ℕ
multiplier consecutive_failures = 2 ^ min consecutive_failures 5 % 2 ^ 64

unfoldable pub next_poll_delay : Duration → ℕ → Duration
next_poll_delay base consecutive_failures = if consecutive_failures == 0 then base else record {
  secs =
      min (min (max base.secs 1 * multiplier consecutive_failures) (2 ^ 64 - 1))
        (max max_poll_backoff_secs (max base.secs 1));
  nanos = 0;
}
