-- ===== src/Node/Steps.antt =====
-- The threads of litewayd/src/main.rs as steps on the node: the receiver, the lighthouse thread, the
-- maintenance thread, the reader of the device, and the end, one whole handler after another.
use mathlib.Core.Path.{subst}
use liteway.Common.{ℕ, ◌≡◌, refl, true, false, Option, none, some, List, [], ◌∷◌, ◌>>=◌}
use liteway.Net.{SocketAddr}
use liteway.Config.{LighthouseConfig}
use liteway.Cache
use liteway.Routes
use liteway.Frag
use liteway.Node.{Host, Clock, State, LighthouseSlot}
use liteway.Node.Discovery.{connect_lighthouses}
use liteway.Node.Maintenance.{maintenance_tick}
use liteway.Node.Overlay.{send_to_overlay, notify_shutdown}
use liteway.Node.Receive.{receiver_turn}
use liteway.Node.Frame.{frame, AllBound}
use liteway.Node.Frame.Discovery.{connect_lighthouses-Keeps}
use liteway.Node.Frame.Lookup.{send_to_overlay-Keeps}
use liteway.Node.Invariant.{IsValid, Keeps-IsValid}
use liteway.Node.Invariant.Datagrams.{receiver_turn-IsValid}
use liteway.Node.Invariant.Upkeep.{maintenance_tick-IsValid, notify_shutdown-IsValid}

chain-some :
    {A B : Type 0} (o : Option A) (f : A → Option B) (b : B)
    → (o >>= f) ≡ some b
    → (a : A) × (o ≡ some a) × (f a ≡ some b)
chain-some none f b e = absurd (cc)
chain-some (some a) f b e = (a, refl, e)

module _ (h : Host) where
  abbrev slot_at : LighthouseConfig → ℕ → SocketAddr → LighthouseSlot
  slot_at lighthouse now address = record {
    name = lighthouse.name;
    configured = lighthouse.address;
    address = address;
    peer_id = none;
    resolved_at = now;
  }

  -- The loop over the configured lighthouses, which ends at the first that has no address.
  unfoldable pub resolve_lighthouses : List LighthouseConfig → ℕ → Option (List LighthouseSlot)
  resolve_lighthouses [] now = some []
  resolve_lighthouses (lighthouse ∷ rest) now = do
    address ← h.resolve_socket_addr lighthouse.address
    resolved ← resolve_lighthouses rest now
    some (slot_at lighthouse now address ∷ resolved)

  -- The node that `main` makes.
  unfoldable pub new_node : List LighthouseSlot → ℕ → State h
  new_node lighthouses now = record {
    peers = [];
    pending = [];
    routes = Routes.new h.networks;
    rx_sessions = [];
    lighthouses = lighthouses;
    handshake_cache = Cache.new;
    discovery_pending = [];
    running = true;
    assembler = Frag.new;
    last_cleanup = now;
    datagrams = [];
    tun = [];
    device = [];
    draws = 0;
  }

  -- One handler, in whichever thread, from its start to its end with no other in between: the source
  -- takes its locks one at a time, so there two handlers can mix. The loops stop once the node is no
  -- longer running.
  pub data Step : State h → State h → Type 0 where
    receives :
        (s : State h) (datagram : Option (SocketAddr × List ℕ)) (clock : Clock)
        → s.running ≡ true
        → Step s (receiver_turn h s datagram clock)
    dials :
        (s : State h) (clock : Clock) → s.running ≡ true → Step s (connect_lighthouses h s clock)
    maintains : (s : State h) (now : ℕ) → s.running ≡ true → Step s (maintenance_tick h s now)
    forwards :
        (s : State h) (ip_packet : List ℕ) (overlay_networks : List h.networks.Net) (now : ℕ)
        → s.running ≡ true
        → Step s (send_to_overlay h s ip_packet overlay_networks now)
    stops : (s : State h) → Step s (record s { running = false })
    says_goodbye : (s : State h) → s.running ≡ false → Step s (notify_shutdown h s)

  -- The states that the node can come to by whole handlers, one after another.
  pub data Reachable (lighthouses : List LighthouseSlot) (now : ℕ) : State h → Type 0 where
    begins : Reachable lighthouses now (new_node lighthouses now)
    goes_on : (s t : State h) → Reachable lighthouses now s → Step s t → Reachable lighthouses now t

  resolved-AllBound :
      (configured : List LighthouseConfig) (now : ℕ) (slots : List LighthouseSlot)
      → resolve_lighthouses configured now ≡ some slots
      → AllBound h [] slots
  unfolding resolve_lighthouses
  resolved-AllBound [] now slots e = subst (AllBound h []) (let same : [] ≡ slots = cc in same) tt
  resolved-AllBound (l ∷ rest) now slots e =
      let (address, _, e1) = chain-some (h.resolve_socket_addr l.address) _ slots e in
      let (resolved, e2, e3) = chain-some (resolve_lighthouses rest now) _ slots e1 in
      subst (AllBound h []) (let same : slot_at l now address ∷ resolved ≡ slots = cc in same)
        (tt, resolved-AllBound rest now resolved e2)

  Step-IsValid : (s t : State h) → Step s t → IsValid h s → IsValid h t
  Step-IsValid s t (receives _ o clock r) v = receiver_turn-IsValid h s o clock v
  Step-IsValid s t (dials _ clock r) v = Keeps-IsValid h s _ (connect_lighthouses-Keeps h s clock) v
  Step-IsValid s t (maintains _ now r) v = maintenance_tick-IsValid h s now v
  Step-IsValid s t (forwards _ p nets now r) v =
      Keeps-IsValid h s _ (send_to_overlay-Keeps h s p nets now) v
  Step-IsValid s t (stops _) v = Keeps-IsValid h s _ (frame h s _ refl refl refl refl refl) v
  Step-IsValid s t (says_goodbye _ r) v = notify_shutdown-IsValid h s v

  new_node-IsValid :
      (slots : List LighthouseSlot) (now : ℕ) → AllBound h [] slots → IsValid h (new_node slots now)
  unfolding new_node Routes.new
  new_node-IsValid slots now bound = record {
    peers_distinct = tt;
    sessions_distinct = tt;
    identity = λ id p e. absurd (cc);
    sessions = λ sid id e. absurd (cc);
    routed = tt;
    bound = bound;
  }

  from_start :
      (slots : List LighthouseSlot) (now : ℕ) (s : State h)
      → AllBound h [] slots
      → Reachable slots now s
      → IsValid h s
  from_start slots now s bound begins = new_node-IsValid slots now bound
  from_start slots now s bound (goes_on t _ r step) =
      Step-IsValid t s step (from_start slots now t bound r)

  -- In every state that the node comes to from the lighthouses of its configuration by handlers that
  -- run one after another, in any order, each to its end before the next begins: each peer has the id of
  -- its certificate, which has been found valid, and the routes that the certificate grants; each
  -- session belongs to a peer who is there and receives under its id; each route and each bound
  -- lighthouse leads to a peer who is there.
  pub Reachable-IsValid :
      (configured : List LighthouseConfig) (slots : List LighthouseSlot) (now : ℕ) (s : State h)
      → resolve_lighthouses configured now ≡ some slots
      → Reachable slots now s
      → IsValid h s
  Reachable-IsValid configured slots now s e r =
      from_start slots now s (resolved-AllBound configured now slots e) r
