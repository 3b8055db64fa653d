-- ===== src/Lib.antt =====
-- A model of liteway, an overlay network: nodes hold certificates of one CA, find each other through
-- lighthouses, agree on session keys and carry IP packets in sealed datagrams, directly or through
-- relays.
--
-- The parts and how they meet. A node reads its configuration (Config), which gives its timings (Time)
-- and the size of its datagrams. It dials a peer with a handshake that is retried (Pending); the answers
-- it gave are kept (Cache), and of two handshakes that cross one stays (Dial). A certificate (Cert) says
-- who the peer is and, through its groups, which networks it may route (Policy); the routing table
-- (Routes) finds the peer of an address. A session (Peer) numbers its packets, refuses those it saw
-- (Replay), keeps itself alive and moves between a relay and the direct path. Its packets are sealed,
-- masked and read in Wire. Handshakes are sealed under the network key and read with their checks
-- (Handshake), and travel in fragments (Frag). Node puts these together: its maps, the handlers of its
-- threads, and the steps that they make.
--
-- Which file models what:
--   Net                addresses, and the interface of the crate ipnetwork
--   Time, Peer         litewayd/src/state.rs, Timings and PeerState with next_seq, mark_seen,
--                      ack_keepalive, tick and take_path_probe; Peer/Events has runs of these, and
--                      Peer/Ticks, Liveness, PathChoice and Sequence are about them
--   Replay             litewayd/src/state.rs, ReplayWindow; Replay/Window is about its bitmap and
--                      Replay/History about the numbers that it accepts
--   Routes             litewayd/src/state.rs, RouteTable; Routes/Longest and Updates
--   Pending            litewayd/src/state.rs, PendingHandshake and retry_delay; Pending/Retries
--   Cache              litewayd/src/state.rs, HandshakeCache; Cache/Answers
--   Dial               litewayd/src/state.rs, accept_handshake_session; Dial/Agreement
--   Cert               liteway-core/src/cert.rs, the data, sign and verify, with the hybrid signature of
--                      liteway-core/src/crypto.rs; Cert/Validity
--   Crypto             what the program takes from other crates
--   Wire               liteway-core/src/packet.rs: Wire has the header and the layout, Wire/Reader the
--                      reader, Seal and Body the packets that are sent, Parse and Decrypt those that
--                      are received; Header, RoundTrip and Delivery are about them
--   Handshake          liteway-core/src/handshake.rs: Handshake seals and opens, Handshake/Result has
--                      the errors, Reader the reader, Message the two messages, Message/Parse
--                      parse_handshake_1 and parse_handshake_2, Message/Process process_handshake_1
--                      and process_handshake_2; Opening, Moves, Message/Layout, Written, Agreement,
--                      Refusals and Authenticity are about them, Message/Sample is test data
--   Frag               liteway-core/src/frag.rs, send_fragmented_with_id and FragmentAssembler;
--                      Frag/Counts and Bounds are about its counts and limits, Frag/Sending about what
--                      is sent
--   Config             liteway-core/src/config.rs, with udp_payload_limit of litewayd/src/main.rs;
--                      Config/Validity and Datagrams
--   Policy             litewayd/src/main.rs, from node_id_from_cert to is_overlay_broadcast;
--                      Policy/Grants and Headers
--   Node               litewayd/src/main.rs, Node: Node has its fields and the sending, Node/Sessions
--                      start_handshake, add_peer and remove_peer, Discovery the lighthouses,
--                      Maintenance maintenance_tick, Lookup the lighthouse messages and keepalives,
--                      Accept the handshakes that come in, Receive handle_datagram and what it calls,
--                      Overlay send_to_overlay and notify_shutdown, Steps the threads and the start;
--                      Frame is about what handlers leave alone, Invariant about what holds of the
--                      maps, Deliveries about what reaches the device, Crossing about the sessions
--                      that handshakes change, in the terms of Dial/Agreement
--   Common             lists, keyed maps, bytes and bits that the others share
-- A folder's Tests module runs the definitions at concrete inputs.
--
-- How it is modelled. Bytes, texts and keys are lists of natural numbers. A number of w bits is a
-- natural number; where the source wraps (the sequence number, a shift) the wrap-around is written out,
-- and saturating subtraction is that of the natural numbers. An Instant and a Duration are nanoseconds.
-- A hash map is an association list, and where the source iterates over one, the list gives the order.
-- A method on &mut self returns the new state with its result; the clock, random tokens and random
-- bytes are arguments. No model needs fuel: every loop is over a list or a count. The state of the node
-- has its maps and a record of what it did: datagrams, packets for the device, routes of the device and
-- the count of its random draws, which are numbered. A handler of the node is one function on that
-- state, which reads the clock once and is not interleaved with another; the threads are steps in any
-- order. Sending to the socket succeeds.
--
-- Parameters. The crates ipnetwork (Net.IpNetworks), blake3, chacha20poly1305 and serde_json
-- (Crypto.Crates), ed25519-dalek and ml-dsa (Cert.Signatures), and x25519-dalek and ml-kem
-- (Handshake.Message.KeyAgreement) are arguments. What is relied on is stated in Crypto.Laws,
-- Cert.Validity.IsKeyPair, Handshake.Message.Layout.HandshakeLaws and the predicates on text forms, and
-- the Tests modules have an instance of each. The resolver of names is a field of Node.Host.
--
-- Not modelled: interleavings inside a handler of the node, poisoned locks, failing sockets and
-- devices, the rest of main (reading files, opening the device and the socket), logging, the devices of
-- liteway-net, which are calls of the operating system, and the tool liteway-cert, which reads and
-- writes files.
pub mod Cache
pub mod Cert
pub mod Common
pub mod Config
pub mod Crypto
pub mod Dial
pub mod Frag
pub mod Handshake
pub mod Net
pub mod Node
pub mod Peer
pub mod Pending
pub mod Policy
pub mod Replay
pub mod Routes
pub mod Time
pub mod Wire
