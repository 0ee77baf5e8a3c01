-- ===== src/Reverse/Udp/Kept.antt =====
-- What a table keeps while its operations run: associations within the limit, destinations that were
-- sent to.
use rove.Base.{ℕ, ◌-◌, ◌≤◌}
use rove.Base.{
  ◌≡◌, refl, sym, inl, inr, Bool, true, false, not, ◌&&◌, Option, none, some, List, [], ◌∷◌, arith,
}
use rove.Base.{ltb, leb, ◌==◌, Bool-cases}
use rove.Base.{length, any, All}
use rove.Base.Eq.{nat_eq, list_eq}
use rove.Base.Text.{Text}
use rove.Base.Assoc.{find, has_key, insert}
use mathlib.Core.Path.{subst}
use rove.Base.{All-map}
use rove.Base.Assoc.{All-insert, length-insert, find-has_key}
use rove.Net.{SocketAddr, socket_eq, socket_beq, socket_beq_iff}
use rove.Reverse.Udp.{
  HopUdpTable, HopUdpSession, Output, sent_to, relayed, nothing, associate, retain_live, send_up,
  resolve, resolve_key, cached_or, new_hop_session, no_contacts, contains, contact,
}
use rove.Reverse.Udp.Contacts.{IsWell, contact-IsWell, no_contacts-IsWell}

abbrev pub is_send : ℕ → SocketAddr → Output → Bool
is_send sid a (sent_to s b payload) = s == sid && socket_beq b a
is_send sid a (relayed s b bytes) = false
is_send sid a nothing = false

-- The association sent a packet to the destination before.
abbrev pub was_sent : ℕ → SocketAddr → List Output → Bool
was_sent sid a = any (is_send sid a)

-- Each relayed packet comes from a destination of an earlier packet of the same association. The
-- newest output stands first.
abbrev pub IsInvited : List Output → Output → Type 0
IsInvited log (sent_to sid a payload) = Unit
IsInvited log (relayed sid src bytes) = was_sent sid src log ≡ true
IsInvited log nothing = Unit

abbrev pub AllInvited : List Output → Type 0
AllInvited [] = Unit
AllInvited (o ∷ log) = IsInvited log o × AllInvited log

-- An association remembers destinations within the limit, all of which it sent to.
abbrev pub IsHeld : List Output → ℕ × HopUdpSession → Type 0
IsHeld log (sid, s) =
    IsWell s.contacted
    × ((a : SocketAddr) → contains s.contacted a ≡ true → was_sent sid a log ≡ true)

pub record IsKept (log : List Output) (t : HopUdpTable) : Type 0 where
  pub held : All (IsHeld log) t.sessions
  pub bounded : length t.sessions ≤ t.max_sessions
  pub positive : 1 ≤ t.max_sessions

pub IsHeld-grows :
    (log : List Output) (o : Output) (x : ℕ × HopUdpSession) → IsHeld log x → IsHeld (o ∷ log) x
IsHeld-grows log o (sid, s) (well, sent) = (well, λ a h. ground (arith, sent a h))

pub IsKept-grows :
    (log : List Output) (o : Output) (t : HopUdpTable) → IsKept log t → IsKept (o ∷ log) t
IsKept-grows log o t k = record {
  held = All-map (IsHeld log) (IsHeld (o ∷ log)) t.sessions (IsHeld-grows log o) k.held;
  bounded = k.bounded;
  positive = k.positive;
}

-- A session that a table has gives its place to one that is held.
pub replaced :
    (log : List Output) (t : HopUdpTable) (sid : ℕ) (old s : HopUdpSession)
    → IsKept log t
    → find t.sessions sid ≡ some old
    → IsHeld log (sid, s)
    → IsKept log (record t { sessions = insert t.sessions sid s })
replaced log t sid old s k f h = record {
  held = All-insert (IsHeld log) t.sessions sid s k.held h;
  bounded =
      ground (arith, k.bounded, find-has_key t.sessions sid old f, length-insert t.sessions sid s);
  positive = k.positive;
}

pub new_hop_session-IsHeld :
    (log : List Output) (sid now : ℕ) → IsHeld log (sid, new_hop_session now)
unfolding new_hop_session no_contacts contains
new_hop_session-IsHeld log sid now = (unfold no_contacts in no_contacts-IsWell, λ a h. cc)

pub associate-IsKept :
    (log : List Output) (t : HopUdpTable) (sid : ℕ) (bound : Bool) (now : ℕ)
    → IsKept log t
    → IsKept log (associate t sid bound now).0
unfolding associate
associate-IsKept log t sid false now k = k
associate-IsKept log t sid true now k =
    elim (Bool-cases (leb t.max_sessions (length t.sessions) && not (has_key t.sessions sid))) [
      | inl full ↦ rw full k
      | inr room ↦ rw room record {
        held =
            All-insert (IsHeld log) t.sessions sid (new_hop_session now) k.held
              (new_hop_session-IsHeld log sid now);
        bounded = ground (arith, k.bounded, length-insert t.sessions sid (new_hop_session now));
        positive = k.positive;
      }
    ]

pub retain_live-All :
    (P : ℕ × HopUdpSession → Type 0) (now : ℕ) (m : List (ℕ × HopUdpSession))
    → All P m
    → All P (retain_live now m) × (length (retain_live now m) ≤ length m)
unfolding retain_live
retain_live-All P now [] h = (tt, omega arith)
retain_live-All P now ((sid, s) ∷ m) (h, hs) =
    let (kept, shorter) = retain_live-All P now m hs in
    elim (Bool-cases (ltb (now - s.last_seen) 60)) [
      | inl live ↦ rw (live, All, length) ((h, kept), omega arith)
      | inr idle ↦ rw (idle, All, length) (kept, omega arith)
    ]

pub resolve-contacted :
    (s : HopUdpSession) (host : Text) (port : ℕ) (answer : Option SocketAddr)
    → (resolve s host port answer).0.contacted ≡ s.contacted
unfolding resolve
resolve-contacted s host port answer =
    kept (resolve_key host port) (find s.resolve_cache (resolve_key host port)) answer
  where
    kept :
        (key : Text) (hit answered : Option SocketAddr)
        → (cached_or s key hit answered).0.contacted ≡ s.contacted
    kept key (some a) answered = refl
    kept key none none = refl
    kept key none (some a) = refl

pub socket_same : (a : SocketAddr) → socket_beq a a ≡ true
socket_same a = (socket_beq_iff a a).1 refl

-- A send keeps the table and its associations as they have to be.
pub send_up-IsKept :
    (log : List Output) (t : HopUdpTable) (sid : ℕ) (payload : List ℕ) (old s : HopUdpSession)
    (to : Option SocketAddr) (delivered : Bool)
    → IsKept log t
    → find t.sessions sid ≡ some old
    → IsHeld log (sid, s)
    → IsKept
        ((send_up t sid payload s to delivered).1 ∷ log)
        (send_up t sid payload s to delivered).0
      × IsInvited log (send_up t sid payload s to delivered).1
unfolding send_up
send_up-IsKept log t sid payload old s none delivered k f h =
    (IsKept-grows log nothing _ (replaced log t sid old s k f h), tt)
send_up-IsKept log t sid payload old s (some a) false k f h =
    (IsKept-grows log nothing _ (replaced log t sid old s k f h), tt)
send_up-IsKept log t sid payload old s (some a) true k f (well, sent) =
    let (well', _, only) = contact-IsWell s.contacted a well in
    let more = sent_to sid a payload ∷ log in
    (
      replaced more t sid old (record s { contacted = contact s.contacted a })
          (IsKept-grows log (sent_to sid a payload) t k) f
          (
            well',
            λ b h. elim (only b h) [
              | inl e ↦
                  subst (λ x. was_sent sid x more ≡ true) (sym e) (ground (arith, socket_same a))
              | inr before ↦ ground (arith, sent b before)
            ],
          ),
      tt,
    )
