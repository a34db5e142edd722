-- ===== src/PeerTcp/Closing.antt =====
-- How a TCP peer is closed, src/peer_tcp.cpp.
use beyond_protocol.Prelude.{
  ℕ, ◌≡◌, sym, subst, arith, Bool, true, false, not, ◌&&◌, ◌||◌, ◌==◌, if◌then◌else◌, [], ◌∷◌, none,
}
use beyond_protocol.Prelude.Int.{pos, negsuc}
use beyond_protocol.Rpc.Handshake.{
  NodeStatus, invalid, connecting, connected, disconnected, reconnecting,
}
use beyond_protocol.PeerTcp.{
  notify_disconnect, error, socket_error_code, Peer, returns, is_connected, close_now, Written,
  wrote, throws, send_buffer, send, close_locked, close, is_status,
}

-- The message that announces the closing is sent in part, or not at all.
abbrev pub is_broken : Written → ℕ → Bool
is_broken (wrote (negsuc k)) size = false
is_broken (wrote (pos c)) size = not (c == 0) && not (c == size)
is_broken throws size = true

abbrev pub is_whole : Written → ℕ → Bool
is_whole (wrote (negsuc k)) size = false
is_whole (wrote (pos c)) size = not (c == 0) && c == size
is_whole throws size = false

abbrev pub closed : Written → ℕ → Bool → Peer → Peer
closed w size retry p = record p {
  status = if p.can_reconnect && (retry || is_broken w size) then reconnecting else disconnected;
  valid = false;
}

abbrev working : Bool → ℕ → Peer
working can most = record {
  status = connected;
  valid = true;
  can_reconnect = can;
  recv_max = most;
  owner = none;
}

working_lem :
    (p : Peer) → is_connected p ≡ true → p.owner ≡ none → p ≡ working p.can_reconnect p.recv_max
working_lem p up free = go p.status p.valid up
  where
    go :
        (status : NodeStatus) (valid : Bool)
        → (valid && is_status status connected) ≡ true
        → record p { status = status; valid = valid } ≡ working p.can_reconnect p.recv_max
    go connected true e = ground arith
    go invalid true e = absurd cc
    go connecting true e = absurd cc
    go disconnected true e = absurd cc
    go reconnecting true e = absurd cc
    go status false e = absurd cc

working_closes :
    (t : ℕ) (w : Written) (size : ℕ) (retry can : Bool) (most : ℕ)
    → close t w size retry (working can most)
      ≡ returns (closed w size retry (working can most)) tt (
          if is_whole w size
          then notify_disconnect ∷ []
          else error socket_error_code ∷ notify_disconnect ∷ [])
unfolding close close_locked send send_buffer close_now
working_closes t (wrote (negsuc k)) size retry can most = ground arith
working_closes t (wrote (pos c)) size retry can most = ground arith
working_closes t throws size retry can most = ground arith

-- Closing a connected peer whose lock is free always returns: the socket is closed, the universe is
-- told of the disconnection once, after an error unless the message that announces it was sent whole. The peer
-- is left to be reconnected if it can be and that was asked for, and also where the message was cut off
-- or its sending threw, although it was not asked for.
pub close_lem :
    (t : ℕ) (w : Written) (size : ℕ) (retry : Bool) (p : Peer)
    → is_connected p ≡ true
    → p.owner ≡ none
    → close t w size retry p
      ≡ returns (closed w size retry p) tt (
          if is_whole w size
          then notify_disconnect ∷ []
          else error socket_error_code ∷ notify_disconnect ∷ [])
close_lem t w size retry p up free =
    subst
      (λ (p : Peer).
        close t w size retry p
        ≡ returns (closed w size retry p) tt (
            if is_whole w size
            then notify_disconnect ∷ []
            else error socket_error_code ∷ notify_disconnect ∷ []))
      (sym (working_lem p up free)) (working_closes t w size retry p.can_reconnect p.recv_max)
