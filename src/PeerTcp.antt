-- ===== src/PeerTcp.antt =====
-- A peer over a TCP socket: src/peer_tcp.cpp, its status, sending, closing, reconnecting and receiving.
-- Jobs has the threads that handle what is received. What the socket answers is a parameter, and the
-- lock on the send buffer is modelled, with the threads that take it as numbers.
pub mod Jobs
pub mod Runs
pub mod Sending
pub mod Told
pub mod Notified
pub mod Closing
use beyond_protocol.Prelude.{
  ℕ, zero, suc, ◌+◌, ◌-◌, ◌*◌, ◌/◌, Bool, true, false, not, ◌&&◌, ◌||◌, ◌==◌, ltb, leb,
  if◌then◌else◌, List, [], ◌∷◌, ◌++◌, Option, none, some,
}
use beyond_protocol.Prelude.Int.{ℤ, pos, negsuc}
use beyond_protocol.Rpc.Handshake.{
  NodeStatus, invalid, connecting, connected, disconnected, reconnecting,
}

-- Error::kSocketError
abbrev pub packet_failure : ℕ
packet_failure = 2

abbrev pub socket_error_code : ℕ
socket_error_code = 6

-- Error::kBufferSize
abbrev pub buffer_size : ℕ
buffer_size = 7

-- Error::kReconnectionFailed
abbrev pub reconnection_failed : ℕ
reconnection_failed = 8

-- PeerTcp::kMaxMessage
abbrev pub max_message : ℕ
max_message = 4 * 1024 * 1024

-- PeerTcp::kDefaultMessage
abbrev pub default_message : ℕ
default_message = 512 * 1024

-- The fields of a PeerTcp: `valid` is whether its socket is, `owner` the thread that holds the recursive
-- lock send_mtx_, and how often. The three reconnect_on_ fields are constants.
pub record Peer : Type 0 where
  pub status : NodeStatus
  pub valid : Bool
  pub can_reconnect : Bool
  pub recv_max : ℕ
  pub owner : Option (ℕ × ℕ)

-- What the universe is told, and bytes handed over to a job.
pub data Event : Type 0 where
  error : ℕ → Event
  notify_disconnect : Event
  hands_over : ℕ → Event

-- How a call ends: it returns, it waits for a lock that another thread holds, or a CHECK fails.
pub data Outcome (A : Type 0) : Type 0 where
  returns : Peer → A → List Event → Outcome A
  waits : Outcome A
  aborts : Outcome A

-- One call after another, with the events of both.
abbrev pub and_after : {A : Type 0} → List Event → Outcome A → Outcome A
and_after events (returns p a more) = returns p a (events ++ more)
and_after events waits = waits
and_after events aborts = aborts

infixl 5 ◌>>=◌
abbrev pub ◌>>=◌ : {A B : Type 0} → Outcome A → (Peer → A → Outcome B) → Outcome B
returns p a events >>= f = and_after events (f p a)
waits >>= f = waits
aborts >>= f = aborts

abbrev pub lock : ℕ → Peer → Option Peer
lock t p = elim p.owner [
  | none ↦ some (record p { owner = some (t, 1) })
  | some (u, n) ↦ if u == t then some (record p { owner = some (t, n + 1) }) else none
]

abbrev pub unlock : Peer → Peer
unlock p = elim p.owner [
  | none ↦ p
  | some (u, n) ↦
      if leb n 1 then record p { owner = none } else record p { owner = some (u, n - 1) }
]

abbrev pub is_status : NodeStatus → NodeStatus → Bool
is_status invalid invalid = true
is_status connecting connecting = true
is_status connected connected = true
is_status disconnected disconnected = true
is_status reconnecting reconnecting = true
is_status _ _ = false

-- The status is connected or connecting.
abbrev pub is_up : NodeStatus → Bool
is_up s = is_status s connected || is_status s connecting

-- isConnected
abbrev pub is_connected : Peer → Bool
is_connected p = p.valid && is_status p.status connected

-- isValid, once there is a socket
abbrev pub is_valid : Peer → Bool
is_valid p = p.valid && is_up p.status

-- _close
unfoldable pub close_now : Bool → Peer → Peer × List Event
close_now retry p = if not (is_up p.status) then (p, []) else (
  record p {
    status = if retry && p.can_reconnect then reconnecting else disconnected;
    valid = false;
  },
  if p.valid then notify_disconnect ∷ [] else [],
)

-- What writev answers: a number of bytes or a negative number, or an exception.
pub data Written : Type 0 where
  wrote : ℤ → Written
  throws : Written

-- send_buffer_ of `size` bytes, after get_buffer_. It returns early without set_buffer_, which
-- would give the lock back.
unfoldable pub send_buffer : Written → ℕ → Peer → Peer × (ℤ × List Event)
send_buffer w size p = if not p.valid then (p, (negsuc 0, [])) else elim w [
  | wrote (negsuc k) ↦ (unlock p, (negsuc k, error socket_error_code ∷ []))
  | wrote (pos c) ↦
      if c == 0
      then (unlock p, (pos 0, error socket_error_code ∷ []))
      else (if c == size
          then (unlock p, (pos 1, []))
          else (let (q, events) = close_now true p in
              (unlock q, (pos 1, error socket_error_code ∷ events))))
  | throws ↦
      let (q, events) = close_now true p in (unlock q, (pos 1, error socket_error_code ∷ events))
]

-- send: get_buffer_, which takes the lock and keeps it, and send_buffer_.
unfoldable pub send : ℕ → Written → ℕ → Peer → Outcome ℤ
send t w size p = elim (lock t p) [
  | none ↦ waits
  | some q ↦ let (r, (code, events)) = send_buffer w size q in returns r code events
]

-- The part of close that closes, under the lock.
unfoldable pub close_locked : ℕ → Bool → Peer → Outcome (Unit {0})
close_locked t retry p = elim (lock t p) [
  | none ↦ waits
  | some q ↦ let (r, events) = close_now retry q in returns (unlock r) tt events
]

-- close. The message that announces it has `size` bytes.
unfoldable pub close : ℕ → Written → ℕ → Bool → Peer → Outcome (Unit {0})
close t w size retry p =
    if is_connected p
    then (send t w size p >>= λ q code. close_locked t retry q)
    else close_locked t retry p

-- rawClose, once no jobs are left.
unfoldable pub raw_close : ℕ → Peer → Outcome (Unit {0})
raw_close t p = elim (lock t (record p { status = disconnected })) [
  | none ↦ waits
  | some q ↦ returns (unlock (record q { valid = false })) tt []
]

-- What becomes of a socket that is connected again: it is, or an exception, with a valid socket or not.
pub data Connected : Type 0 where
  connects : Connected
  refused : Bool → Connected

-- reconnect, once no jobs are left.
unfoldable pub reconnect : ℕ → Connected → Written → ℕ → Peer → Outcome Bool
reconnect t c w size p =
    if not (is_status p.status connecting) || not p.can_reconnect
    then returns p false []
    else elim c [
      | connects ↦ returns (record p { status = connecting; valid = true }) true []
      | refused valid ↦
          and_after (error reconnection_failed ∷ [])
            (close t w size true (record p { valid = valid }) >>= λ q u. returns q false [])
    ]

-- socketError, for a code that is fatal or not, and is ECONNRESET or not.
unfoldable pub socket_error : Bool → Bool → Peer → Peer × (Bool × List Event)
socket_error fatal reset p =
    if not fatal
    then (p, (false, []))
    else (let (q, events) = close_now true p in
        (q, (true, if reset then events else error socket_error_code ∷ events)))

-- _data where the received bytes are no message: a std::exception of the parser.
unfoldable pub data_failed : Bool → Peer → Peer × List Event
data_failed reconnect_on_protocol_error p =
    let (q, events) = close_now reconnect_on_protocol_error p in (q, error packet_failure ∷ events)

-- What Universe::_periodic does to a peer before it calls reconnect.
unfoldable pub make_ready : Peer → Peer
make_ready p = record p { status = connecting }

-- What the socket's recv answers, and whether the socket is valid afterwards.
pub data Received : Type 0 where
  got : ℤ → Bool → Received
  fails : Received

-- The two checks on the size of the buffer, for `n` bytes in a buffer that had room for `room`.
unfoldable pub check_size : ℤ → ℕ → Peer → Peer × List Event
check_size (negsuc k) room p =
    (p, if ltb room (p.recv_max / 10) then error buffer_size ∷ [] else [])
check_size (pos n) room p =
    let q =
      if leb room (n + 1) && ltb p.recv_max max_message
      then record p { recv_max = p.recv_max + 512 * 1024 }
      else p in
    (
      q,
      (if leb room (n + 1) then error buffer_size ∷ [] else [])
          ++ (if ltb room (q.recv_max / 10) then error buffer_size ∷ [] else []),
    )

-- What recv does with the number that the socket answered.
unfoldable pub take_received : ℕ → ℤ → Bool → Written → ℕ → Peer → Outcome (Unit {0})
take_received t (negsuc k) still w size p = close t w size true (record p { valid = false })
take_received t (pos k) still w size p =
    if k == 0 then (if still then aborts else returns p tt []) else returns p tt (hands_over k ∷ [])

-- recv, into a buffer with room for `room` bytes, which is not 0.
unfoldable pub recv : ℕ → Received → ℕ → Written → ℕ → Peer → Outcome (Unit {0})
recv t r room w size p =
    if not p.valid || is_status p.status disconnected then returns p tt [] else elim r [
      | fails ↦ and_after (error socket_error_code ∷ []) (close t w size true p)
      | got n still ↦
          let (q, events) = check_size n room (record p { valid = still }) in
          and_after events (take_received t n still w size q)
    ]
