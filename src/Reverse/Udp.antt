-- ===== src/Reverse/Udp.antt =====
-- The UDP relay of the reverse hop, src/reverse/udp.rs: the edge's session ids and return queues, the
-- hop's table of associations. Sockets, name resolution and the clock act through the arguments of
-- the operations.
pub mod Ids
pub mod Contacts
pub mod Kept
pub mod Relayed
use rove.Base.{
  ℕ, zero, suc, ◌+◌, ◌-◌, ◌*◌, ◌/◌, ◌%◌, ◌^◌, ◌≤◌, ◌<◌, min, max, bit_and, bit_or, bit_xor,
}
use rove.Base.{
  ◌≡◌, refl, sym, ap, ◌∙◌, ◌≢◌, ◌↔◌, ◌⊎◌, inl, inr, Bool, true, false, not, ◌&&◌, ◌||◌, Option,
  none, some, List, [], ◌∷◌, ◌++◌, map, arith,
}
use rove.Base.{
  ltb, leb, ◌==◌, if◌then◌else◌, ltb→lt, lt→ltb, leb→le, le→leb, le→ltb_false, ==_iff, Bool-cases,
  Option-cases,
}
use rove.Base.{
  drop-append_add, All-take, All-append, replicate, length, get_elem?, set, take, drop, any, all,
  All, length-append, length-take, length-drop, take-append_length, drop-append_length,
  take-append-drop, any-append, length-set, get_elem?-set_self, get_elem?-set_ne,
}
use rove.Base.Bytes.{
  ascii, IsByte, to_le_bytes, to_be_bytes, from_le_bytes, from_be_bytes, slice, byte_at, xor_prefix,
  length-to_le_bytes, length-to_be_bytes, from_le_bytes-to_le_bytes, from_be_bytes-to_be_bytes,
  to_le_bytes-IsByte, length-xor_prefix, xor_prefix_twice, xor_prefix-append,
}
use rove.Base.Eq.{Eq, same, same_refl, list_beq, list_beq_iff, member, nat_eq, list_eq}
use rove.Base.Bytes.{ascii}
use rove.Base.Text.{
  Text, is_empty, to_ascii_lowercase, trim, trim_matches, strip_prefix, contains_text, split_on,
  split_once, join_with,
}
use rove.Base.Text.Split.{IsFree, split_on-IsFree, split_on-join_with}
use rove.Base.Result.{Result, ok, err, ◌>>=◌, ensure, ok_or}
use rove.Base.Assoc.{find, has_key, insert}
use rove.Base.Assoc.{remove}
use rove.Base.Decimal.{to_decimal}
use rove.Base.Text.Utf8.{Utf8}
use rove.Net.{SocketAddr, AddrText, socket_eq}
use rove.Reverse.Frame.{FrameError}
use rove.Reverse.Datagram.{Datagram, encode_datagram, parse_datagram}

abbrev pub udp_session_idle : ℕ
udp_session_idle = 60

abbrev pub max_contacted_per_session : ℕ
max_contacted_per_session = 512

abbrev pub return_channel_cap : ℕ
return_channel_cap = 1024

pub record ReturnPacket : Type 0 where
  pub host : Text
  pub port : ℕ
  pub payload : List ℕ

-- The return queues hold the oldest packet first. The counter is a u32.
pub record EdgeUdpConn : Type 0 where
  pub sessions : List (ℕ × List ReturnPacket)
  pub seq : ℕ

-- Rounds of `fetch_add(1)` until the value is not zero, with the counter that is left.
unfoldable pub next_session_id : ℕ → ℕ → Option (ℕ × ℕ)
next_session_id zero seq = none
next_session_id (suc fuel) seq =
    let again = next_session_id fuel ((seq + 1) % 2 ^ 32) in
    if not (seq == 0) then some (seq, (seq + 1) % 2 ^ 32) else again

unfoldable pub register : EdgeUdpConn → ℕ → EdgeUdpConn
register c sid = record c { sessions = insert c.sessions sid [] }

unfoldable pub remove_session : EdgeUdpConn → ℕ → EdgeUdpConn
remove_session c sid = record c { sessions = remove c.sessions sid }

abbrev pub push_return : List ReturnPacket → ReturnPacket → List ReturnPacket
push_return queue packet =
    if ltb (length queue) return_channel_cap then queue ++ packet ∷ [] else queue

-- A packet for a full queue, or for no session, is dropped.
unfoldable pub route : EdgeUdpConn → Datagram → EdgeUdpConn
route c dg = elim (find c.sessions dg.session_id) [
  | none ↦ c
  | some queue ↦ record c {
    sessions =
        insert c.sessions dg.session_id
          (push_return queue record { host = dg.host; port = dg.port; payload = dg.payload });
  }
]

-- One datagram of the edge's reader.
unfoldable pub edge_demux : AddrText → Utf8 → EdgeUdpConn → List ℕ → EdgeUdpConn
edge_demux addr u c bytes = elim (parse_datagram addr u bytes) [ ok dg ↦ route c dg | err e ↦ c ]

pub record Contacted : Type 0 where
  pub order : List SocketAddr
  pub set : List SocketAddr

unfoldable pub no_contacts : Contacted
no_contacts = record { order = []; set = [] }

-- `HashSet::remove`
unfoldable pub discard_addr : SocketAddr → List SocketAddr → List SocketAddr
discard_addr a [] = []
discard_addr a (b ∷ bs) = let rest = discard_addr a bs in if same b a then rest else b ∷ rest

-- The oldest goes when there are too many.
unfoldable pub evict_oldest : Contacted → Contacted
evict_oldest c =
    if ltb max_contacted_per_session (length c.order)
    then (elim (c.order) [
      | [] ↦ c
      | ◌∷◌ old rest ↦ record { order = rest; set = discard_addr old c.set }
    ])
    else c

unfoldable pub contact : Contacted → SocketAddr → Contacted
contact c a =
    if member a c.set
    then c
    else evict_oldest record { order = c.order ++ a ∷ []; set = c.set ++ a ∷ [] }

unfoldable pub contains : Contacted → SocketAddr → Bool
contains c a = member a c.set

-- The resolution cache has `host:port` as its keys.
pub record HopUdpSession : Type 0 where
  pub contacted : Contacted
  pub resolve_cache : List (Text × SocketAddr)
  pub last_seen : ℕ

pub record HopUdpTable : Type 0 where
  pub sessions : List (ℕ × HopUdpSession)
  pub max_sessions : ℕ

unfoldable pub new_hop_table : ℕ → HopUdpTable
new_hop_table max_sessions = record { sessions = []; max_sessions = max max_sessions 1 }

unfoldable pub new_hop_session : ℕ → HopUdpSession
new_hop_session now = record { contacted = no_contacts; resolve_cache = []; last_seen = now }

-- Whether the socket was bound is an argument; so is the time.
unfoldable pub associate : HopUdpTable → ℕ → Bool → ℕ → HopUdpTable × Bool
associate t sid bound now =
    if not bound
    then (t, false)
    else (if leb t.max_sessions (length t.sessions) && not (has_key t.sessions sid)
        then (t, false)
        else (record t { sessions = insert t.sessions sid (new_hop_session now) }, true))

unfoldable pub dissociate : HopUdpTable → ℕ → HopUdpTable
dissociate t sid = record t { sessions = remove t.sessions sid }

unfoldable pub retain_live : ℕ → List (ℕ × HopUdpSession) → List (ℕ × HopUdpSession)
retain_live now [] = []
retain_live now ((sid, s) ∷ rest) =
    let kept = retain_live now rest in
    if ltb (now - s.last_seen) udp_session_idle then (sid, s) ∷ kept else kept

unfoldable pub evict_idle : HopUdpTable → ℕ → HopUdpTable
evict_idle t now = record t { sessions = retain_live now t.sessions }

abbrev pub resolve_key : Text → ℕ → Text
resolve_key host port = host ++ b':' ∷ to_decimal port

-- What the cache has for the key comes first; a new answer is kept.
abbrev pub cached_or :
    HopUdpSession → Text → Option SocketAddr → Option SocketAddr → HopUdpSession × Option SocketAddr
cached_or s key (some a) answer = (s, some a)
cached_or s key none none = (s, none)
cached_or s key none (some a) = (record s { resolve_cache = insert s.resolve_cache key a }, some a)

-- The resolver's answer is an argument.
unfoldable pub resolve :
    HopUdpSession → Text → ℕ → Option SocketAddr → HopUdpSession × Option SocketAddr
resolve s host port answer =
    cached_or s (resolve_key host port) (find s.resolve_cache (resolve_key host port)) answer

-- What the hop sends: a packet to a destination, or a datagram to the edge.
pub data Output : Type 0 where
  sent_to : ℕ → SocketAddr → List ℕ → Output
  relayed : ℕ → SocketAddr → List ℕ → Output
  nothing : Output

-- A packet to a destination that is known, and the socket's answer to the send.
unfoldable pub send_up :
    HopUdpTable → ℕ → List ℕ → HopUdpSession → Option SocketAddr → Bool → HopUdpTable × Output
send_up t sid payload s none delivered = (record t { sessions = insert t.sessions sid s }, nothing)
send_up t sid payload s (some a) false = (record t { sessions = insert t.sessions sid s }, nothing)
send_up t sid payload s (some a) true = (
  record t { sessions = insert t.sessions sid (record s { contacted = contact s.contacted a }) },
  sent_to sid a payload,
)

module _ (addr : AddrText) (u : Utf8) where
  unfoldable pub uplink : HopUdpTable → List ℕ → ℕ → Option SocketAddr → Bool → HopUdpTable × Output
  uplink t bytes now answer delivered = elim (parse_datagram addr u bytes) [
    | err e ↦ (t, nothing)
    | ok dg ↦ elim (find t.sessions dg.session_id) [
      | none ↦ (t, nothing)
      | some s ↦
          let r = resolve (record s { last_seen = now }) dg.host dg.port answer in
          send_up t dg.session_id dg.payload r.0 r.1 delivered
    ]
  ]

  -- A datagram within the connection's limit goes to the edge.
  abbrev pub send_down : ℕ → SocketAddr → Option ℕ → Option (List ℕ) → Output
  send_down sid src limit none = nothing
  send_down sid src none (some bytes) = relayed sid src bytes
  send_down sid src (some n) (some bytes) =
      if ltb n (length bytes) then nothing else relayed sid src bytes

  -- One packet that the association's socket received.
  unfoldable pub downlink :
      HopUdpTable → ℕ → SocketAddr → List ℕ → ℕ → Option ℕ → HopUdpTable × Output
  downlink t sid src payload now limit = elim (find t.sessions sid) [
    | none ↦ (t, nothing)
    | some s ↦ if not (contains s.contacted src) then (t, nothing) else (
      record t { sessions = insert t.sessions sid (record s { last_seen = now }) },
      send_down sid src limit
          (encode_datagram addr sid (addr.ip_to_string src.ip) src.port payload),
    )
  ]
