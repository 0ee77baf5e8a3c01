-- ===== src/Health/Readiness.antt =====
-- When a node is ready, told by what happened to it.
use rove.Base.{ℕ, suc, ◌+◌, ◌-◌, ◌%◌, ◌^◌, ◌<◌}
use rove.Base.{
  ◌≡◌, refl, ap, ◌∙◌, ◌↔◌, ◌⊎◌, inl, inr, Bool, true, false, not, ◌||◌, Option, none, some, List,
  [], ◌∷◌, arith,
}
use rove.Base.{ltb, ◌==◌, if◌then◌else◌, Bool-cases}
use rove.Base.{any}
use rove.Sync.{Duration}
use rove.Sync.Outage.{recorded, outage, oldest, recorded_since}
use rove.Health.{
  RuntimeHealth, HealthSnapshot, new_with_data_plane, data_plane_online, drop_lease, begin_draining,
  snapshot_of, classify, status_of, is_unreachable,
}

-- What happens to a node: a listener comes up or ends, the node drains, a poll ends at a time.
pub data Event : Type 0 where
  online ended drained : Event
  polled : ℕ → Bool → Event

-- The leases that are out. A lease that is not out cannot end.
unfoldable pub leases : List Event → ℕ
leases [] = 0
leases (online ∷ events) = suc (leases events)
leases (ended ∷ events) = leases events - 1
leases (drained ∷ events) = leases events
leases (polled now success ∷ events) = leases events

unfoldable pub step : ℕ → RuntimeHealth → Event → RuntimeHealth
step out h online = data_plane_online h
step out h ended = if out == 0 then h else drop_lease h
step out h drained = begin_draining h
step out h (polled now success) = h

-- The events, the newest first.
unfoldable pub run : Duration → Bool → List Event → RuntimeHealth
run after required [] = new_with_data_plane after required
run after required (e ∷ events) = step (leases events) (run after required events) e

unfoldable pub polls : List Event → List (ℕ × Bool)
polls [] = []
polls (online ∷ events) = polls events
polls (ended ∷ events) = polls events
polls (drained ∷ events) = polls events
polls (polled now success ∷ events) = (now, success) ∷ polls events

abbrev pub is_drained : Event → Bool
is_drained online = false
is_drained ended = false
is_drained drained = true
is_drained (polled now success) = false

-- What `serve_request` reads off the node.
unfoldable pub observed : Duration → Bool → List Event → ℕ → ℕ → ℕ → HealthSnapshot
observed after required events version schema_version now =
    snapshot_of (run after required events) version schema_version (recorded (polls events)) now

counted_up : (n : ℕ) → (n % 2 ^ 64 + 1) % 2 ^ 64 ≡ suc n % 2 ^ 64
counted_up n = omega arith

counted_down : (n : ℕ) → (n == 0) ≡ false → (n % 2 ^ 64 + (2 ^ 64 - 1)) % 2 ^ 64 ≡ (n - 1) % 2 ^ 64
counted_down n p = ground arith

-- The state that the events lead to.
abbrev pub reached : Duration → Bool → ℕ → Bool → RuntimeHealth
reached after required out is_draining = record {
  unreachable_after = after;
  data_plane_required = required;
  active_listeners = out % 2 ^ 64;
  draining = is_draining;
}

pub run-reached :
    (after : Duration) (required : Bool) (events : List Event)
    → run after required events ≡ reached after required (leases events) (any is_drained events)
unfolding run step new_with_data_plane data_plane_online drop_lease begin_draining leases
run-reached after required [] = refl
run-reached after required (online ∷ events) =
    ap data_plane_online (run-reached after required events)
    ∙ ap (λ n. record (reached after required 0 (any is_drained events)) { active_listeners = n })
        (counted_up (leases events))
run-reached after required (ended ∷ events) = elim (Bool-cases (leases events == 0)) [
  | inl h ↦
      rw (h, run-reached after required events)
        (ap (λ n. reached after required n (any is_drained events)) (ground arith))
  | inr h ↦ rw h (
      ap drop_lease (run-reached after required events)
      ∙ ap (λ n. record (reached after required 0 (any is_drained events)) { active_listeners = n })
          (counted_down (leases events) h))
]
run-reached after required (drained ∷ events) =
    ap begin_draining (run-reached after required events)
run-reached after required (polled now success ∷ events) = run-reached after required events

-- The outage, if there is one, is shorter than the limit.
abbrev pub IsCalm : Option ℕ → ℕ → Duration → Type 0
IsCalm since now after = (t : ℕ) → since ≡ some t → now - t < after.secs

is_unreachable_iff :
    (since : Option ℕ) (now : ℕ) (after : Duration)
    → (is_unreachable since now after ≡ false) ↔ IsCalm since now after
unfolding is_unreachable
is_unreachable_iff none now after = ground arith
is_unreachable_iff (some since) now after =
    (λ h t e. grind arith, λ h. ground (arith, h since refl))

status_of_iff :
    (is_draining loaded up is_off : Bool)
    → ((status_of is_draining loaded up is_off).1 ≡ true)
      ↔ ((is_draining ≡ false) × (loaded ≡ true) × (up ≡ true) × (is_off ≡ false))
unfolding status_of
status_of_iff is_draining loaded up is_off = ground arith

-- Whatever happened, a node is ready just when it did not begin to drain, has a snapshot, has a
-- listener that is up where it needs one (leases are counted modulo 2^64), and the failures since the
-- last successful poll, if there are any, began less than the limit ago.
pub ready_iff :
    (after : Duration) (required : Bool) (events : List Event) (version schema_version now : ℕ)
    → ((observed after required events version schema_version now).is_ready ≡ true) ↔ (
        (any is_drained events ≡ false)
        × (0 < version)
        × ((required ≡ false) ⊎ (0 < leases events % 2 ^ 64))
        × IsCalm (oldest (outage (polls events))) now after)
unfolding observed snapshot_of classify
ready_iff after required events version schema_version now =
    rw (run-reached after required events, recorded_since (polls events))
      (ground (
        arith,
        is_unreachable_iff (oldest (outage (polls events))) now after,
        status_of_iff (any is_drained events) (ltb 0 version)
            (not required || ltb 0 (leases events % 2 ^ 64))
            (is_unreachable (oldest (outage (polls events))) now after),
      ))
