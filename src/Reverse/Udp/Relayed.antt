-- ===== src/Reverse/Udp/Relayed.antt =====
-- Runs of a hop's table of associations: what it sends, in order.
use rove.Base.{ℕ}
use rove.Base.{◌≡◌, refl, sym, inl, inr, Bool, true, not, Option, none, some, List, [], ◌∷◌, arith}
use rove.Base.{ltb, if◌then◌else◌, Bool-cases}
use rove.Base.{length}
use rove.Base.Eq.{nat_eq, list_eq}
use rove.Base.Result.{Result, ok, err}
use rove.Base.Assoc.{find, insert}
use mathlib.Core.Path.{subst}
use rove.Base.Assoc.{find-All, All-remove, length-remove}
use rove.Base.Text.Utf8.{Utf8}
use rove.Net.{SocketAddr, AddrText, socket_eq}
use rove.Reverse.Frame.{FrameError}
use rove.Reverse.Datagram.{Datagram, encode_datagram, parse_datagram}
use rove.Reverse.Udp.{
  HopUdpTable, HopUdpSession, Output, nothing, associate, dissociate, evict_idle, uplink, downlink,
  send_up, send_down, resolve, new_hop_table, contains,
}
use rove.Reverse.Udp.Contacts.{IsWell}
use rove.Reverse.Udp.Kept.{
  was_sent, IsInvited, AllInvited, IsHeld, IsKept, IsKept-grows, replaced, associate-IsKept,
  retain_live-All, resolve-contacted, send_up-IsKept,
}

-- What happens to a table, with the answers of the socket, the resolver and the clock.
pub data Event : Type 0 where
  associated : ℕ → Bool → ℕ → Event
  dissociated : ℕ → Event
  swept : ℕ → Event
  from_edge : List ℕ → ℕ → Option SocketAddr → Bool → Event
  from_socket : ℕ → SocketAddr → List ℕ → ℕ → Option ℕ → Event

module _ (addr : AddrText) (u : Utf8) where
  unfoldable pub step : HopUdpTable → Event → HopUdpTable × Output
  step t (associated sid bound now) = ((associate t sid bound now).0, nothing)
  step t (dissociated sid) = (dissociate t sid, nothing)
  step t (swept now) = (evict_idle t now, nothing)
  step t (from_edge bytes now answer delivered) = uplink addr u t bytes now answer delivered
  step t (from_socket sid src payload now limit) = downlink addr u t sid src payload now limit

  -- The events in order, and the outputs, the newest first.
  unfoldable pub run : HopUdpTable → List Output → List Event → HopUdpTable × List Output
  run t log [] = (t, log)
  run t log (e ∷ events) = run (step t e).0 ((step t e).1 ∷ log) events

  abbrev Step : List Output → HopUdpTable × Output → Type 0
  Step log (t, o) = IsKept (o ∷ log) t × IsInvited log o

  uplink-Step :
      (log : List Output) (t : HopUdpTable) (bytes : List ℕ) (now : ℕ) (answer : Option SocketAddr)
      (delivered : Bool)
      → IsKept log t
      → Step log (uplink addr u t bytes now answer delivered)
  unfolding uplink
  uplink-Step log t bytes now answer delivered k = from_datagram (parse_datagram addr u bytes)
    where
      from_session :
          (dg : Datagram) (o : Option HopUdpSession)
          → find t.sessions dg.session_id ≡ o
          → Step log (elim o [
            | none ↦ (t, nothing)
            | some s ↦
                let r = resolve (record s { last_seen = now }) dg.host dg.port answer in
                send_up t dg.session_id dg.payload r.0 r.1 delivered
          ])
      from_session dg none f = (IsKept-grows log nothing t k, tt)
      from_session dg (some s) f =
          let touched = record s { last_seen = now } in
          let r = resolve touched dg.host dg.port answer in
          let (well, sent) = find-All (IsHeld log) t.sessions dg.session_id s k.held f in
          send_up-IsKept log t dg.session_id dg.payload s r.0 r.1 delivered k f (
            subst
              (λ c.
                IsWell c
                × ((a : SocketAddr) → contains c a ≡ true → was_sent dg.session_id a log ≡ true))
              (sym (resolve-contacted touched dg.host dg.port answer)) (well, sent))

      from_datagram :
          (r : Result FrameError Datagram)
          → Step log (elim r [
            | err e ↦ (t, nothing)
            | ok dg ↦ elim (find t.sessions dg.session_id) [
              | none ↦ (t, nothing)
              | some s ↦
                  let r = resolve (record s { last_seen = now }) dg.host dg.port answer in
                  send_up t dg.session_id dg.payload r.0 r.1 delivered
            ]
          ])
      from_datagram (err e) = (IsKept-grows log nothing t k, tt)
      from_datagram (ok dg) = from_session dg (find t.sessions dg.session_id) refl

  send_down-IsInvited :
      (log : List Output) (sid : ℕ) (src : SocketAddr) (limit : Option ℕ) (bytes : Option (List ℕ))
      → was_sent sid src log ≡ true
      → IsInvited log (send_down addr u sid src limit bytes)
  send_down-IsInvited log sid src limit none h = tt
  send_down-IsInvited log sid src none (some bytes) h = h
  send_down-IsInvited log sid src (some n) (some bytes) h =
      elim (Bool-cases (ltb n (length bytes))) [
        | inl over ↦ rw (over, IsInvited) tt
        | inr under ↦ rw (under, IsInvited) h
      ]

  downlink-Step :
      (log : List Output) (t : HopUdpTable) (sid : ℕ) (src : SocketAddr) (payload : List ℕ)
      (now : ℕ) (limit : Option ℕ)
      → IsKept log t
      → Step log (downlink addr u t sid src payload now limit)
  unfolding downlink
  downlink-Step log t sid src payload now limit k = from_session (find t.sessions sid) refl
    where
      relay : Output
      relay =
          send_down addr u sid src limit
            (encode_datagram addr sid (addr.ip_to_string src.ip) src.port payload)

      from_session :
          (o : Option HopUdpSession)
          → find t.sessions sid ≡ o
          → Step log (elim o [
            | none ↦ (t, nothing)
            | some s ↦ if not (contains s.contacted src) then (t, nothing) else (
              record t { sessions = insert t.sessions sid (record s { last_seen = now }) },
              relay,
            )
          ])
      from_session none f = (IsKept-grows log nothing t k, tt)
      from_session (some s) f =
          let (well, sent) = find-All (IsHeld log) t.sessions sid s k.held f in
          elim (Bool-cases (contains s.contacted src)) [
            | inl known ↦ rw known (
              IsKept-grows log relay _
                  (replaced log t sid s (record s { last_seen = now }) k f (well, sent)),
              send_down-IsInvited log sid src limit _ (sent src known),
            )
            | inr unknown ↦ rw unknown (IsKept-grows log nothing t k, tt)
          ]

  step-Step : (log : List Output) (t : HopUdpTable) (e : Event) → IsKept log t → Step log (step t e)
  unfolding step dissociate evict_idle
  step-Step log t (associated sid bound now) k =
      (IsKept-grows log nothing _ (associate-IsKept log t sid bound now k), tt)
  step-Step log t (dissociated sid) k = (
    IsKept-grows log nothing _ record {
      held = All-remove (IsHeld log) t.sessions sid k.held;
      bounded = omega (arith, k.bounded, length-remove t.sessions sid);
      positive = k.positive;
    },
    tt,
  )
  step-Step log t (swept now) k =
      let (live, shorter) = retain_live-All (IsHeld log) now t.sessions k.held in
      (
        IsKept-grows log nothing _ record {
          held = live;
          bounded = omega (arith, k.bounded, shorter);
          positive = k.positive;
        },
        tt,
      )
  step-Step log t (from_edge bytes now answer delivered) k =
      uplink-Step log t bytes now answer delivered k
  step-Step log t (from_socket sid src payload now limit) k =
      downlink-Step log t sid src payload now limit k

  run-IsKept :
      (events : List Event) (t : HopUdpTable) (log : List Output)
      → IsKept log t
      → AllInvited log
      → IsKept (run t log events).1 (run t log events).0 × AllInvited (run t log events).1
  unfolding run
  run-IsKept [] t log k a = (k, a)
  run-IsKept (e ∷ events) t log k a =
      let (kept, invited) = step-Step log t e k in
      run-IsKept events (step t e).0 ((step t e).1 ∷ log) kept (invited, a)

  new_hop_table-IsKept : (max_sessions : ℕ) → IsKept [] (new_hop_table max_sessions)
  unfolding new_hop_table
  new_hop_table-IsKept max_sessions = record {
    held = tt;
    bounded = omega arith;
    positive = omega arith;
  }

  -- Whatever happens to a new table, in whatever order: a packet is relayed to the edge only if it
  -- comes from a destination to which the same association sent a packet before; there are never
  -- more associations than the limit, and none remembers more than 512 destinations.
  pub run-AllInvited :
      (max_sessions : ℕ) (events : List Event)
      → AllInvited (run (new_hop_table max_sessions) [] events).1
        × IsKept
            (run (new_hop_table max_sessions) [] events).1
            (run (new_hop_table max_sessions) [] events).0
  run-AllInvited max_sessions events =
      let (kept, invited) =
        run-IsKept events (new_hop_table max_sessions) [] (new_hop_table-IsKept max_sessions) tt in
      (invited, kept)
