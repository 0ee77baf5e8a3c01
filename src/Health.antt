-- ===== src/Health.antt =====
-- The readiness of a node, src/health.rs.
pub mod Readiness
pub mod Answers
pub mod Server
mod Tests
use rove.Base.{
  ℕ, zero, suc, ◌+◌, ◌-◌, ◌*◌, ◌/◌, ◌%◌, ◌^◌, ◌≤◌, ◌<◌, min, max, bit_and, bit_or, bit_xor,
}
use rove.Base.{
  ◌≡◌, refl, sym, ap, ◌∙◌, ◌≢◌, ◌↔◌, ◌⊎◌, inl, inr, Bool, true, false, not, ◌&&◌, ◌||◌, Option,
  none, some, List, [], ◌∷◌, ◌++◌, map, arith,
}
use rove.Base.{
  ltb, leb, ◌==◌, if◌then◌else◌, ltb→lt, lt→ltb, leb→le, le→leb, le→ltb_false, ==_iff, Bool-cases,
  Option-cases,
}
use rove.Base.{
  drop-append_add, All-take, All-append, replicate, length, get_elem?, set, take, drop, any, all,
  All, length-append, length-take, length-drop, take-append_length, drop-append_length,
  take-append-drop, any-append, length-set, get_elem?-set_self, get_elem?-set_ne,
}
use rove.Sync.{SyncHealth, Duration}

-- Without the engine and the syncer, whose answers `snapshot` takes.
pub record RuntimeHealth : Type 0 where
  pub unreachable_after : Duration
  pub data_plane_required : Bool
  pub active_listeners : ℕ
  pub draining : Bool

unfoldable pub new_with_data_plane : Duration → Bool → RuntimeHealth
new_with_data_plane unreachable_after data_plane_required = record {
  unreachable_after = unreachable_after;
  data_plane_required = data_plane_required;
  active_listeners = 0;
  draining = false;
}

-- `fetch_add(1)`, which wraps.
unfoldable pub data_plane_online : RuntimeHealth → RuntimeHealth
data_plane_online h = record h { active_listeners = (h.active_listeners + 1) % 2 ^ 64 }

-- `drop` of a lease: `fetch_sub(1)`, which wraps.
unfoldable pub drop_lease : RuntimeHealth → RuntimeHealth
drop_lease h = record h { active_listeners = (h.active_listeners + (2 ^ 64 - 1)) % 2 ^ 64 }

unfoldable pub begin_draining : RuntimeHealth → RuntimeHealth
begin_draining h = record h { draining = true }

pub data Status : Type 0 where
  draining starting unavailable degraded ready : Status

pub data ControlPlane : Type 0 where
  unreachable reachable retrying unknown : ControlPlane

pub record SnapshotHealth : Type 0 where
  pub loaded : Bool
  pub version : ℕ
  pub schema_version : ℕ

pub record ControlPlaneHealth : Type 0 where
  pub status : ControlPlane
  pub consecutive_failures : ℕ
  pub last_attempt_unix_secs : Option ℕ
  pub last_success_unix_secs : Option ℕ

pub record DataPlaneHealth : Type 0 where
  pub required : Bool
  pub active_listeners : ℕ

-- Without the version of the package.
pub record HealthSnapshot : Type 0 where
  pub status : Status
  pub is_ready : Bool
  pub snapshot : SnapshotHealth
  pub control_plane : ControlPlaneHealth
  pub data_plane : DataPlaneHealth

unfoldable pub is_unreachable : Option ℕ → ℕ → Duration → Bool
is_unreachable none now unreachable_after = false
is_unreachable (some since) now unreachable_after = leb unreachable_after.secs (now - since)

-- `is_some()`
abbrev pub is_some : Option ℕ → Bool
is_some none = false
is_some (some t) = true

-- The data plane is not needed, or a listener is up.
abbrev pub data_plane_ready : DataPlaneHealth → Bool
data_plane_ready d = not d.required || ltb 0 d.active_listeners

-- The tests of `draining`, `loaded`, `data_plane_ready` and `unreachable`, in this order.
unfoldable pub status_of : Bool → Bool → Bool → Bool → Status × Bool
status_of is_draining loaded data_plane_ready is_unreachable =
    if is_draining
    then (draining, false)
    else (if not loaded
        then (starting, false)
        else (if not data_plane_ready
            then (unavailable, false)
            else (if is_unreachable then (degraded, false) else (ready, true))))

unfoldable pub control_plane_of : Bool → SyncHealth → ControlPlane
control_plane_of is_unreachable sync =
    if is_unreachable
    then unreachable
    else (if is_some sync.last_success_unix_secs
        then reachable
        else (if is_some sync.failure_since_unix_secs then retrying else unknown))

unfoldable pub classify :
    ℕ → ℕ → SyncHealth → ℕ → Duration → DataPlaneHealth → Bool → HealthSnapshot
classify snapshot_version schema_version sync now unreachable_after data_plane is_draining =
    let is_off = is_unreachable sync.failure_since_unix_secs now unreachable_after in
    let verdict =
      status_of is_draining (ltb 0 snapshot_version) (data_plane_ready data_plane) is_off in
    record {
      status = verdict.0;
      is_ready = verdict.1;
      snapshot = record {
        loaded = ltb 0 snapshot_version;
        version = snapshot_version;
        schema_version = schema_version;
      };
      control_plane = record {
        status = control_plane_of is_off sync;
        consecutive_failures = sync.consecutive_failures;
        last_attempt_unix_secs = sync.last_attempt_unix_secs;
        last_success_unix_secs = sync.last_success_unix_secs;
      };
      data_plane = data_plane;
    }

-- With the versions of the engine, the record of the syncer and the answer of the clock.
unfoldable pub snapshot_of : RuntimeHealth → ℕ → ℕ → SyncHealth → ℕ → HealthSnapshot
snapshot_of h version schema_version sync now =
    classify version schema_version sync now h.unreachable_after
      (record { required = h.data_plane_required; active_listeners = h.active_listeners })
      h.draining
