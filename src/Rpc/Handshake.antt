-- ===== src/Rpc/Handshake.antt =====
-- The handshake of two peers: src/peer.cpp. Other messages of a peer, and the drop of its connection, do not
-- come in between.
use beyond_protocol.Prelude.{
  ℕ, ◌≡◌, refl, arith, Bool, true, false, not, ◌==◌, if◌then◌else◌, List, [], ◌∷◌, ◌++◌, Option,
  none, some, ◌>>=◌,
}

-- ftl::protocol::NodeStatus
pub data NodeStatus : Type 0 where
  invalid : NodeStatus
  connecting : NodeStatus
  connected : NodeStatus
  disconnected : NodeStatus
  reconnecting : NodeStatus

-- Error::kBadHandshake
abbrev pub bad_handshake : ℕ
bad_handshake = 9

-- The arguments of "__handshake__".
pub record Handshake : Type 0 where
  pub magic : ℕ
  pub version : ℕ
  pub id : ℕ

-- The part of PeerBase that the handshake reads and sets, with the identifier of its own universe.
pub record Peer : Type 0 where
  pub status : NodeStatus
  pub handshake_sent : Bool
  pub peerid : ℕ
  pub version : ℕ
  pub own_id : ℕ

-- What is sent, and what the universe is told.
pub data Event : Type 0 where
  sent : Handshake → Event
  notify_connect : Event
  error : ℕ → Event

-- The handshakes among the events.
abbrev pub handshakes : List Event → List Handshake
handshakes [] = []
handshakes (sent m ∷ events) = m ∷ handshakes events
handshakes (notify_connect ∷ events) = handshakes events
handshakes (error e ∷ events) = handshakes events

-- kMagic and kVersion are parameters.
module _ (magic version : ℕ) where
  -- send_handshake; none is the failed CHECK, which ends the program.
  unfoldable pub send_handshake : Peer → Option (Peer × List Event)
  send_handshake p = elim p.status [
    | connecting ↦ some (
      record p { handshake_sent = true },
      sent (record { magic = magic; version = version; id = p.own_id }) ∷ [],
    )
    | _ ↦ none
  ]

  -- process_handshake_
  unfoldable pub process_handshake : Handshake → Peer → Option (Peer × (Bool × List Event))
  process_handshake m p =
      if not (m.magic == magic)
      then some (p, (false, error bad_handshake ∷ []))
      else (let p1 = record p { version = m.version; peerid = m.id } in
          do
            (p2, events) ← (if p1.handshake_sent then some (p1, []) else send_handshake p1)
            some (record p2 { status = connected }, (true, events ++ notify_connect ∷ [])))

  -- The handshakes that arrive at a peer, one after the other.
  abbrev pub arrive : List Handshake → Peer → Option (Peer × List Event)
  arrive [] p = some (p, [])
  arrive (m ∷ ms) p = do
    (p1, (ok, events)) ← process_handshake m p
    (p2, more) ← arrive ms p1
    some (p2, events ++ more)

-- The listening side sends its handshake, the connecting side answers, and so on until nothing is on
-- the way, for at most two turns of each side. Each side has a version.
abbrev pub shake : ℕ → ℕ → ℕ → Peer → Peer → Option (Peer × Peer × List Handshake)
shake magic l_version c_version listener connector = do
  (l1, e1) ← send_handshake magic l_version listener
  (c1, e2) ← arrive magic c_version (handshakes e1) connector
  (l2, e3) ← arrive magic l_version (handshakes e2) l1
  (c2, e4) ← arrive magic c_version (handshakes e3) c1
  some (l2, c2, handshakes e4)

-- Two peers that are connecting, of which one listens and the other has sent no handshake, both come to be connected, each
-- with the other's identifier and version, whether or not the versions are the same, and nothing
-- is left on the way.
pub shake_lem :
    (magic l_version c_version : ℕ) (l c : Peer)
    → l.status ≡ connecting
    → c.status ≡ connecting
    → c.handshake_sent ≡ false
    → shake magic l_version c_version l c
      ≡ some (
        record l {
          status = connected;
          handshake_sent = true;
          peerid = c.own_id;
          version = c_version;
        },
        record c {
          status = connected;
          handshake_sent = true;
          peerid = l.own_id;
          version = l_version;
        },
        [],
      )
unfolding send_handshake process_handshake
shake_lem magic l_version c_version l c listening connecting_ fresh =
    let same : (magic == magic) ≡ true = ground arith in
    rw (listening, connecting_, same, fresh, same) refl
