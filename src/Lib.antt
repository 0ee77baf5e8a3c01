-- ===== src/Lib.antt =====
-- rove, an edge proxy. A snapshot from the control plane says who may use it and where each
-- connection goes; an overlay of authenticated UDP datagrams carries traffic between nodes, a
-- reverse hop lends its egress to an edge, and a relay its public ports to a node. This library
-- models the parts that decide what is let through, and the formats in which they speak.
--
-- The routing decision. `Model` is src/model.rs: `Model.Raw` its wire format, `Model.Egress` the
-- compilation of upstreams, chains and actions, `Model.Policy` a routing policy with its index,
-- `Model.Snapshot` the compilation of a whole snapshot, `Model.Decide` the decision for one
-- connection, `Model.View` the inspection views. `Policy` is src/policy: `Policy.Domain` the domain
-- matcher over the label tries of `Policy.Trie`, `Policy.Ip` the address matcher, `Policy.Rules`
-- the rule sets, `Policy.RouteIndex` the index that finds the first route that matches a host. A
-- policy indexes the rule sets of its routes, and a decision asks the index.
--
-- The overlay. `Subnetra` is src/subnetra: `Subnetra.Crypto` key derivation and sealing,
-- `Subnetra.Replay` the replay window, `Subnetra.Wire` the datagram format, `Subnetra.Session` the
-- state of one link in each direction, `Subnetra.Peer` the table of peers that a node selects
-- senders from, learns endpoints in and routes by. A table runs a session for each peer, and a
-- session its window. `Subnetra.Config` is the configuration block and its lowering to what a table
-- is built from; `Subnetra.Peer.Configured` runs a table that was built from a configuration through
-- any datagrams and requests.
--
-- The data planes around them. `Reverse` is src/reverse: `Reverse.Lines` reads header blocks off a
-- stream, `Reverse.Frame` is the requests in them, `Reverse.Datagram` the UDP packets, and
-- `Reverse.Udp` the session ids of an edge and the association table of a hop, whose events
-- `Reverse.Udp.Relayed` runs. `Ingress` is src/ingress/frame.rs: `Ingress.Datagram` the datagrams
-- and identifiers, `Ingress.Frame` the requests, `Ingress.Replies` the replies and the block
-- reader. `Inbound.Tuic` is src/inbound/tuic/codec.rs, `Util` is src/util.rs. `Sync` is the
-- reachability of the control plane in src/sync/mod.rs, and `Health` src/health.rs, which judges
-- a node by it. `Net` holds the addresses that all of them use.
--
-- How the code is read. A struct is a record and a `&mut self` method a function to the new state.
-- Functions keep the names of the source; `open` is `open_body`, `accept` is `accept_datagram`, and
-- the `new` and `seal` of a session are `new_rx`, `new_tx` and `seal_next`. A string is its UTF-8
-- bytes. A HashMap is an association list with each key once: where the source iterates over one,
-- the model takes the order of the list. An error keeps its kind and not its text. Machine integers
-- are natural numbers with the bound written out: the shift of the window is on 64 bits, the
-- transmit counter and the rule count saturate, a route index is cut to 32 bits. Loops are
-- structural recursion; trimming, which takes one character off at a time, is given as many steps
-- as the text has bytes, and each step takes at least one; a decimal number is printed in at most
-- 20 rounds, which a u64 does not exceed; the loop for a session id is given two rounds. An async
-- reader is a function of the bytes that the stream still has, or of the chunks that its reads
-- return. An operation that asks the clock, a socket or the resolver takes the answer as an
-- argument. Of the functions called `encode` and `parse`, each has the name of its type added; the
-- entries of `HashSet` and `VecDeque` are in the order of insertion.
--
-- Parameters. The BLAKE2b digest and the AEAD (`Primitives`: the lengths, and that what was sealed
-- opens), parsing of addresses and networks and containment in a network (std and ipnet), the
-- address book's `resolve` and `matches`, the dates of chrono, and the decoder of serde; UTF-8
-- validation and its lossy decoder (`Utf8`: the decoder leaves valid text alone, and ASCII and what
-- is joined from valid texts is valid), the text form of addresses (`AddrText`: what is parsed has
-- the right width, and an address is read back from its text) and of socket addresses
-- (`SocketText`, `NetText`).
--
-- Not modelled: the address book's builder and file format, the HTTP, SOCKS5 and SNI inbounds, the
-- sniffer, the loops of the reverse hop, the relay, the TUIC server and the overlay's reactor,
-- traffic counters, configuration files other than the overlay's block, and all socket,
-- TLS, MQTT and file I/O.
pub mod Base
pub mod Net
pub mod Health
pub mod Inbound
pub mod Ingress
pub mod Model
pub mod Policy
pub mod Reverse
pub mod Subnetra
pub mod Sync
pub mod Util
