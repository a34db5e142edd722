-- ===== src/PeerTcp/Notified.antt =====
-- How often a TCP peer tells the universe that it is disconnected, src/peer_tcp.cpp.
use beyond_protocol.Prelude.{
  ℕ, ◌+◌, ◌≡◌, ◌≤◌, refl, arith, Bool, true, false, not, ◌&&◌, ◌||◌, if◌then◌else◌, List, [], ◌∷◌,
  inl, inr, Bool-cases,
}
use beyond_protocol.Prelude.Int.{ℤ, pos, negsuc}
use beyond_protocol.Rpc.Handshake.{connecting, disconnected}
use beyond_protocol.PeerTcp.{
  take_received, error, reconnection_failed, socket_error_code, Peer, Outcome, returns, waits,
  aborts, and_after, ◌>>=◌, Written, send, close, Connected, connects, refused, reconnect, Received,
  got, fails, check_size, recv, data_failed, make_ready, is_status, socket_error,
}
use beyond_protocol.PeerTcp.Runs.{
  Op, sends, closes, raw_closes, reconnects, receives, sees_error, fails_to_parse, is_made_ready,
  call, run,
}
use beyond_protocol.PeerTcp.Told.{
  count, open_sockets, told, told-and_after, told->>=, told-forget, told_close_now, told-send,
  told-close, told-raw_close,
}

abbrev pub opens_socket : Connected → ℕ
opens_socket connects = 1
opens_socket (refused valid) = if valid then 1 else 0

-- The sockets that a call of a peer opens: one of a peer that is connecting and may do so again.
abbrev pub opens : Op → Peer → ℕ
opens (reconnects t c w size) p =
    if is_status p.status connecting && p.can_reconnect then opens_socket c else 0
opens _ p = 0

refused_told :
    (t : ℕ) (w : Written) (size : ℕ) (valid : Bool) (p : Peer)
    → told (
        and_after
          (error reconnection_failed ∷ [])
          (close t w size true (record p { valid = valid }) >>= λ q x. returns q false []))
      ≤ (if valid then 1 else 0)
refused_told t w size valid p =
    let q = record p { valid = valid } in
    omega (
      arith,
      told-and_after (error reconnection_failed ∷ [])
          (close t w size true q >>= λ q x. returns q false []),
      told->>= (open_sockets q) (close t w size true q) (λ q x. returns q false [])
          (told-close t w size true q) (λ q x. omega arith),
    )

told-reconnect :
    (t : ℕ) (c : Connected) (w : Written) (size : ℕ) (p : Peer)
    → told (reconnect t c w size p) ≤ open_sockets p + opens (reconnects t c w size) p
unfolding reconnect
told-reconnect t c w size p =
    elim (Bool-cases (not (is_status p.status connecting) || not p.can_reconnect)) [
      | inl idle ↦ rw idle (omega arith)
      | inr due ↦
          let may : (is_status p.status connecting && p.can_reconnect) ≡ true = ground arith in
          rw (due, may) (tried c)
    ]
  where
    tried :
        (c : Connected)
        → told (elim c as (λ c. Outcome Bool) [
          | connects ↦ returns (record p { status = connecting; valid = true }) true []
          | refused valid ↦
              and_after
                (error reconnection_failed ∷ [])
                (close t w size true (record p { valid = valid }) >>= λ q x. returns q false [])
        ])
          ≤ open_sockets p + opens_socket c
    tried connects = omega arith
    tried (refused true) = omega (arith, refused_told t w size true p)
    tried (refused false) = omega (arith, refused_told t w size false p)

told_check_size :
    (n : ℤ) (room : ℕ) (p : Peer)
    → count (check_size n room p).1 + open_sockets (check_size n room p).0 ≡ open_sockets p
unfolding check_size
told_check_size (pos n) room p = ground arith
told_check_size (negsuc n) room p = ground arith

told-take_received :
    (t : ℕ) (n : ℤ) (still : Bool) (w : Written) (size : ℕ) (p : Peer)
    → told (take_received t n still w size p) ≤ open_sockets p
unfolding take_received
told-take_received t (negsuc k) still w size p =
    omega (arith, told-close t w size true (record p { valid = false }))
told-take_received t (pos k) true w size p = ground arith
told-take_received t (pos k) false w size p = ground arith

told-recv :
    (t : ℕ) (r : Received) (room : ℕ) (w : Written) (size : ℕ) (p : Peer)
    → told (recv t r room w size p) ≤ open_sockets p
unfolding recv
told-recv t r room w size p = elim (Bool-cases (not p.valid || is_status p.status disconnected)) [
  | inl idle ↦ rw idle (omega arith)
  | inr due ↦ rw due (received (ground arith) r)
]
  where
    received :
        p.valid ≡ true
        → (r : Received)
        → told (elim r as (λ r. Outcome (Unit {0})) [
          | fails ↦ and_after (error socket_error_code ∷ []) (close t w size true p)
          | got n still ↦
              let (q, events) = check_size n room (record p { valid = still }) in
              and_after events (take_received t n still w size q)
        ])
          ≤ open_sockets p
    received up fails = omega (
      arith,
      told-and_after (error socket_error_code ∷ []) (close t w size true p),
      told-close t w size true p,
    )
    received up (got n still) =
        let (q, events) = check_size n room (record p { valid = still }) in
        ground (
          arith,
          told-and_after events (take_received t n still w size q),
          told-take_received t n still w size q,
          told_check_size n room (record p { valid = still }),
        )

sees_error_told :
    (fatal reset : Bool) (p : Peer)
    → count (socket_error fatal reset p).1.1 + open_sockets (socket_error fatal reset p).0
      ≤ open_sockets p
unfolding socket_error
sees_error_told fatal reset p = ground (arith, told_close_now true p)

told-data_failed :
    (retry : Bool) (p : Peer)
    → count (data_failed retry p).1 + open_sockets (data_failed retry p).0 ≤ open_sockets p
unfolding data_failed
told-data_failed retry p = omega (arith, told_close_now retry p)

told-make_ready : (p : Peer) → open_sockets (make_ready p) ≡ open_sockets p
unfolding make_ready
told-make_ready p = refl

told-call : (op : Op) (p : Peer) → told (call op p) ≤ open_sockets p + opens op p
told-call (sends t w size) p = omega (arith, told-forget (send t w size p), told-send t w size p)
told-call (closes t w size retry) p = omega (arith, told-close t w size retry p)
told-call (raw_closes t) p = omega (arith, told-raw_close t p)
told-call (reconnects t c w size) p =
    omega (arith, told-forget (reconnect t c w size p), told-reconnect t c w size p)
told-call (receives t r room w size) p = omega (arith, told-recv t r room w size p)
told-call (sees_error fatal reset) p = omega (arith, sees_error_told fatal reset p)
told-call (fails_to_parse retry) p = omega (arith, told-data_failed retry p)
told-call is_made_ready p = omega (arith, told-make_ready p)

-- What comes after an outcome.
abbrev pub after : {A : Type 0} → (Peer → ℕ) → Outcome A → ℕ
after k (returns p a events) = k p
after k waits = 0
after k aborts = 0

-- The sockets that calls open, one call after the other.
abbrev pub opened : List Op → Peer → ℕ
opened [] p = 0
opened (op ∷ ops) p = opens op p + after (λ q. opened ops q) (call op p)

told_then :
    {A B : Type 0} (n : ℕ) (k : Peer → ℕ) (o : Outcome A) (f : Peer → A → Outcome B)
    → told o ≤ n
    → ((p : Peer) (a : A) → told (f p a) ≤ open_sockets p + k p)
    → told (o >>= f) ≤ n + after k o
told_then n k (returns p a events) f h each = omega (arith, told-and_after events (f p a), each p a)
told_then n k waits f h each = omega arith
told_then n k aborts f h each = omega arith

-- Whatever calls are made of a peer, the universe is told of at most one disconnection for each socket
-- that was valid at the start or that a reconnect opened, and of none for a socket that is valid at the end. A
-- reconnect opens one only of a peer that is connecting and may reconnect, if the socket is valid after the attempt.
pub told-run : (ops : List Op) (p : Peer) → told (run ops p) ≤ open_sockets p + opened ops p
told-run [] p = omega arith
told-run (op ∷ ops) p = omega (
  arith,
  told_then (open_sockets p + opens op p) (λ q. opened ops q) (call op p) (λ q u. run ops q)
      (told-call op p) (λ q u. told-run ops q),
)
