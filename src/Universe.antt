-- ===== src/Universe.antt =====
-- The table of peers of src/universe.cpp. Peers are objects that others change too (their status and
-- identifier), so they are looked up by their address in a store; calls are taken one at a time.
-- Whether a peer is valid, a virtual function, is a field.
pub mod Slots
pub mod Invariant
pub mod Reached
pub mod Cleanup
pub mod Stale
use beyond_protocol.Prelude.{
  ℕ, zero, suc, ◌+◌, ◌-◌, Bool, true, false, not, ◌||◌, ◌==◌, if◌then◌else◌, List, [], ◌∷◌, ◌++◌,
  Option, none, some, ◌>>=◌, lookup, put, erase_if, set, length, replicate, take,
}
use beyond_protocol.Rpc.Handshake.{NodeStatus, connecting, reconnecting, disconnected}

-- The fields of PeerBase that the universe reads; `tcp` is whether it is a PeerTcp.
pub record Peer : Type 0 where
  pub uri : ℕ
  pub peerid : ℕ
  pub status : NodeStatus
  pub valid : Bool
  pub tcp : Bool
  pub local_id : ℕ

-- Universe. `reconnects` has the peers of reconnects_, whose other fields are not read.
pub record Universe : Type 0 where
  pub store : ℕ → Peer
  pub peers : List (Option ℕ)
  pub by_uri : List (ℕ × ℕ)
  pub peer_ids : List (ℕ × ℕ)
  pub connection_count : ℕ
  pub reconnects : List ℕ
  pub garbage : List ℕ

-- What the universe triggers.
pub data Event : Type 0 where
  connects : ℕ → Event
  disconnects : ℕ → Event

-- peers_[i], none for a null pointer, and past the end, where the source's access is undefined.
unfoldable pub slot : List (Option ℕ) → ℕ → Option ℕ
slot [] i = none
slot (x ∷ xs) zero = x
slot (x ∷ xs) (suc i) = slot xs i

unfoldable pub is_peer : ℕ → Option ℕ → Bool
is_peer p none = false
is_peer p (some q) = q == p

-- _findPeer
unfoldable pub find_peer : ℕ → List (Option ℕ) → Bool
find_peer p [] = false
find_peer p (x ∷ xs) = is_peer p x || find_peer p xs

-- The index of the first empty place.
unfoldable pub free_slot : List (Option ℕ) → Option ℕ
free_slot [] = none
free_slot (none ∷ xs) = some 0
free_slot (some q ∷ xs) = elim (free_slot xs) [ none ↦ none | some i ↦ some (suc i) ]

unfoldable pub with_local_id : ℕ → ℕ → (ℕ → Peer) → ℕ → Peer
with_local_id p i store q = if q == p then record (store q) { local_id = i } else store q

-- insertPeer_; none is the exception for too many connections.
unfoldable pub insert_peer : ℕ → Universe → Option Universe
insert_peer p u = if find_peer p u.peers then some u else elim (free_slot u.peers) [
  | none ↦ none
  | some i ↦ some (record u {
    connection_count = u.connection_count + 1;
    peers = set u.peers i (some p);
    by_uri = put (u.store p).uri i u.by_uri;
    peer_ids = put (u.store p).peerid i u.peer_ids;
    store = with_local_id p i u.store;
  })
]

abbrev pub is_status : NodeStatus → NodeStatus → Bool
is_status reconnecting reconnecting = true
is_status disconnected disconnected = true
is_status _ _ = false

unfoldable pub is_dead : Peer → Bool
is_dead o = not o.valid || (is_status o.status reconnecting || is_status o.status disconnected)

-- Erases the first entry that leads to the peer.
unfoldable pub erase_uri : ℕ → List (Option ℕ) → List (ℕ × ℕ) → List (ℕ × ℕ)
erase_uri p peers [] = []
erase_uri p peers ((uri, j) ∷ m) =
    let rest = erase_uri p peers m in if is_peer p (slot peers j) then m else (uri, j) ∷ rest

-- A peer that reconnects is kept for that if it is a PeerTcp, any other is garbage.
unfoldable pub put_away : ℕ → Universe → Universe
put_away p u =
    if is_status (u.store p).status reconnecting
    then (if (u.store p).tcp then record u { reconnects = u.reconnects ++ p ∷ [] } else u)
    else record u { garbage = u.garbage ++ p ∷ [] }

-- removePeer_ on the place `i`.
unfoldable pub remove_peer : ℕ → Universe → Universe × List Event
remove_peer i u = elim (slot u.peers i) [
  | none ↦ (u, [])
  | some p ↦
      if is_dead (u.store p)
      then (
        put_away p (record u {
          peer_ids = erase_if (λ id j. id == (u.store p).peerid) u.peer_ids;
          by_uri = erase_uri p u.peers u.by_uri;
          connection_count = u.connection_count - 1;
          peers = set u.peers i none;
        }),
        disconnects p ∷ [],
      )
      else (u, [])
]

-- The loop of _cleanupPeers, from the place `i` on with `left` places to go.
unfoldable pub cleanup_from : ℕ → ℕ → Universe → Universe × List Event
cleanup_from zero i u = (u, [])
cleanup_from (suc left) i u =
    let (u1, events) = remove_peer i u in
    let (u2, more) = cleanup_from left (i + 1) u1 in (u2, events ++ more)

-- _cleanupPeers
unfoldable pub cleanup_peers : Universe → Universe × List Event
cleanup_peers u = cleanup_from (length u.peers) 0 u

-- getPeer(const UUID &)
unfoldable pub get_peer : ℕ → Universe → Option ℕ
get_peer id u = elim (lookup id u.peer_ids) [ none ↦ none | some i ↦ slot u.peers i ]

-- The peer that connect() returns for a URI that is connected.
unfoldable pub connected_peer : ℕ → Universe → Option ℕ
connected_peer uri u = elim (lookup uri u.by_uri) [ none ↦ none | some i ↦ slot u.peers i ]

unfoldable pub is_connected : ℕ → Universe → Bool
is_connected uri u = elim (lookup uri u.by_uri) [ none ↦ false | some i ↦ true ]

-- notifyConnect_
unfoldable pub notify_connect : ℕ → Universe → Universe × List Event
notify_connect p u =
    if find_peer p u.peers
    then (
      record u { peer_ids = put (u.store p).peerid (u.store p).local_id u.peer_ids },
      connects p ∷ [],
    )
    else (u, [])

-- notifyDisconnect_
unfoldable pub notify_disconnect : ℕ → Universe → List Event
notify_disconnect p u = if find_peer p u.peers then disconnects p ∷ [] else []

-- _garbage, when the thread pool is idle.
unfoldable pub collect_garbage : Universe → Universe
collect_garbage u = record u { garbage = [] }

unfoldable pub with_status : ℕ → NodeStatus → (ℕ → Peer) → ℕ → Peer
with_status p status store q = if q == p then record (store q) { status = status } else store q

-- One round of the loop over reconnects_ in _periodic; `own` is whether a URI is that of a listener of
-- this universe. What the sockets do on reconnect() is left to later changes of the peer.
unfoldable pub reconnect_peer : (ℕ → Bool) → ℕ → List ℕ → Universe → Option Universe
reconnect_peer own p rest u =
    if own (u.store p).uri
    then some (record u { garbage = u.garbage ++ p ∷ []; reconnects = rest })
    else (do
      u1 ← insert_peer p u
      some (record u1 { store = with_status p connecting u1.store; reconnects = rest }))

unfoldable pub reconnect_each : (ℕ → Bool) → List ℕ → Universe → Option Universe
reconnect_each own [] u = some u
reconnect_each own (p ∷ rest) u = do u1 ← reconnect_peer own p rest u; reconnect_each own rest u1

-- The reconnections of _periodic; none is the exception for too many connections.
abbrev pub reconnect : (ℕ → Bool) → Universe → Option Universe
reconnect own u = reconnect_each own u.reconnects u
