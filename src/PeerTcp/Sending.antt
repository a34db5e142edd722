-- ===== src/PeerTcp/Sending.antt =====
-- The lock on the send buffer of a TCP peer, src/peer_tcp.cpp.
use beyond_protocol.Prelude.{
  ℕ, zero, suc, ◌+◌, ◌≡◌, ◌≢◌, refl, ap, ◌∙◌, arith, Bool, true, false, not, ◌||◌, ◌==◌,
  if◌then◌else◌, List, [], ◌∷◌, none, some, inl, inr, Bool-cases,
}
use beyond_protocol.Prelude.Int.{ℤ, pos, negsuc}
use beyond_protocol.Rpc.Handshake.{connecting, disconnected}
use beyond_protocol.PeerTcp.{
  take_received, error, reconnection_failed, socket_error_code, Peer, Outcome, returns, waits,
  and_after, ◌>>=◌, lock, unlock, is_connected, close_now, data_failed, make_ready, Written, wrote,
  throws, send_buffer, send, close_locked, close, raw_close, Connected, connects, refused,
  reconnect, Received, got, fails, check_size, recv, is_status, socket_error,
}
use beyond_protocol.PeerTcp.Runs.{
  Op, sends, closes, raw_closes, reconnects, receives, sees_error, fails_to_parse, is_made_ready,
  call, run, After, After-and_after, After->>=, After-forget, After-run, After-map,
}

-- The lock is held by a thread.
abbrev pub Held : ℕ → Peer → Type 0
Held t p = (n : ℕ) × (p.owner ≡ some (t, suc n))

unlock-Held : (t n : ℕ) (p : Peer) → p.owner ≡ some (t, suc (suc n)) → Held t (unlock p)
unlock-Held t n p e = (n, ground arith)

close_now-owner : (retry : Bool) (p : Peer) → (close_now retry p).0.owner ≡ p.owner
unfolding close_now
close_now-owner retry p = ground arith

pub send_buffer-owner :
    (w : Written) (size : ℕ) (p : Peer)
    → (send_buffer w size p).0.owner ≡ (if p.valid then (unlock p).owner else p.owner)
unfolding send_buffer
send_buffer-owner (wrote (negsuc k)) size p = ground arith
send_buffer-owner (wrote (pos c)) size p = ground (arith, close_now-owner true p)
send_buffer-owner throws size p = ground (arith, close_now-owner true p)

send_buffer-Held :
    (t n : ℕ) (w : Written) (size : ℕ) (p : Peer)
    → p.owner ≡ some (t, suc (suc n))
    → Held t (send_buffer w size p).0
send_buffer-Held t n w size p e = elim (Bool-cases p.valid) [
  | inl v ↦ (n, ground (arith, send_buffer-owner w size p))
  | inr v ↦ (suc n, ground (arith, send_buffer-owner w size p))
]

lock-Held :
    {A : Type 0} (u t : ℕ) (p : Peer) (f : Peer → Outcome A)
    → Held t p
    → ((n : ℕ) (q : Peer) → q.owner ≡ some (t, suc (suc n)) → After (Held t) (f q))
    → After (Held t) (elim (lock u p) as (λ o. Outcome A) [ none ↦ waits | some q ↦ f q ])
lock-Held u t p f (n, e) k = elim (Bool-cases (t == u)) [
  | inl same ↦ rw e (rw same (k n (record p { owner = some (u, suc n + 1) }) (ground arith)))
  | inr other ↦ rw e (rw other tt)
]

send-Held :
    (u t : ℕ) (w : Written) (size : ℕ) (p : Peer) → Held t p → After (Held t) (send u w size p)
unfolding send
send-Held u t w size p h = lock-Held u t p _ h (λ n q e. send_buffer-Held t n w size q e)

close_locked-Held :
    (u t : ℕ) (retry : Bool) (p : Peer) → Held t p → After (Held t) (close_locked u retry p)
unfolding close_locked
close_locked-Held u t retry p h =
    lock-Held u t p _ h
      (λ n q e. unlock-Held t n (close_now retry q).0 (close_now-owner retry q ∙ e))

close-Held :
    (u t : ℕ) (w : Written) (size : ℕ) (retry : Bool) (p : Peer)
    → Held t p
    → After (Held t) (close u w size retry p)
unfolding close
close-Held u t w size retry p h = elim (Bool-cases (is_connected p)) [
  | inl c ↦ rw c (
      After->>= (Held t) (send u w size p) _ (send-Held u t w size p h)
        (λ q code. close_locked-Held u t retry q))
  | inr c ↦ rw c (close_locked-Held u t retry p h)
]

raw_close-Held : (u t : ℕ) (p : Peer) → Held t p → After (Held t) (raw_close u p)
unfolding raw_close
raw_close-Held u t p h =
    lock-Held u t (record p { status = disconnected }) _ h
      (λ n q e. unlock-Held t n (record q { valid = false }) e)

reconnect-Held :
    (u t : ℕ) (c : Connected) (w : Written) (size : ℕ) (p : Peer)
    → Held t p
    → After (Held t) (reconnect u c w size p)
unfolding reconnect
reconnect-Held u t c w size p h =
    elim (Bool-cases (not (is_status p.status connecting) || not p.can_reconnect)) [
      | inl idle ↦ rw idle h
      | inr due ↦ rw due (tried c)
    ]
  where
    tried :
        (c : Connected)
        → After (Held t) (elim c as (λ c. Outcome Bool) [
          | connects ↦ returns (record p { status = connecting; valid = true }) true []
          | refused valid ↦
              and_after
                (error reconnection_failed ∷ [])
                (close u w size true (record p { valid = valid }) >>= λ q x. returns q false [])
        ])
    tried connects = h
    tried (refused valid) = After-and_after (Held t) (error reconnection_failed ∷ []) _ (
        After->>= (Held t) (close u w size true (record p { valid = valid })) _
          (close-Held u t w size true (record p { valid = valid }) h) (λ q x held. held))

check_size-owner : (n : ℤ) (room : ℕ) (p : Peer) → (check_size n room p).0.owner ≡ p.owner
unfolding check_size
check_size-owner (pos n) room p = ground arith
check_size-owner (negsuc n) room p = refl

take_received-Held :
    (u t : ℕ) (n : ℤ) (still : Bool) (w : Written) (size : ℕ) (p : Peer)
    → Held t p
    → After (Held t) (take_received u n still w size p)
unfolding take_received
take_received-Held u t (negsuc k) still w size p h =
    close-Held u t w size true (record p { valid = false }) h
take_received-Held u t (pos zero) true w size p h = tt
take_received-Held u t (pos zero) false w size p h = h
take_received-Held u t (pos (suc k)) still w size p h =
    let more : (suc k == 0) ≡ false = ground arith in rw more h

recv-Held :
    (u t : ℕ) (r : Received) (room : ℕ) (w : Written) (size : ℕ) (p : Peer)
    → Held t p
    → After (Held t) (recv u r room w size p)
unfolding recv
recv-Held u t r room w size p h =
    elim (Bool-cases (not p.valid || is_status p.status disconnected)) [
      | inl idle ↦ rw idle h
      | inr due ↦ rw due (received r)
    ]
  where
    received :
        (r : Received)
        → After (Held t) (elim r as (λ r. Outcome (Unit {0})) [
          | fails ↦ and_after (error socket_error_code ∷ []) (close u w size true p)
          | got n still ↦
              let (q, events) = check_size n room (record p { valid = still }) in
              and_after events (take_received u n still w size q)
        ])
    received fails =
        After-and_after (Held t) (error socket_error_code ∷ []) (close u w size true p)
          (close-Held u t w size true p h)
    received (got n still) =
        let (q, events) = check_size n room (record p { valid = still }) in
        After-and_after (Held t) events (take_received u n still w size q) (
          take_received-Held u t n still w size q
            (h.0, check_size-owner n room (record p { valid = still }) ∙ h.1))

socket_error-owner :
    (fatal reset : Bool) (p : Peer) → (socket_error fatal reset p).0.owner ≡ p.owner
unfolding socket_error
socket_error-owner fatal reset p = ground (arith, close_now-owner true p)

data_failed-owner : (retry : Bool) (p : Peer) → (data_failed retry p).0.owner ≡ p.owner
unfolding data_failed
data_failed-owner retry p = close_now-owner retry p

make_ready-owner : (p : Peer) → (make_ready p).owner ≡ p.owner
unfolding make_ready
make_ready-owner p = refl

call-Held : (t : ℕ) (op : Op) (p : Peer) → Held t p → After (Held t) (call op p)
call-Held t (sends u w size) p h =
    After-forget (Held t) (send u w size p) (send-Held u t w size p h)
call-Held t (closes u w size retry) p h = close-Held u t w size retry p h
call-Held t (raw_closes u) p h = raw_close-Held u t p h
call-Held t (reconnects u c w size) p h =
    After-forget (Held t) (reconnect u c w size p) (reconnect-Held u t c w size p h)
call-Held t (sees_error fatal reset) p (n, e) = (n, socket_error-owner fatal reset p ∙ e)
call-Held t (fails_to_parse retry) p (n, e) = (n, data_failed-owner retry p ∙ e)
call-Held t is_made_ready p (n, e) = (n, make_ready-owner p ∙ e)
call-Held t (receives u r room w size) p h = recv-Held u t r room w size p h

-- What others may do to a peer whose lock thread t holds: a call that needs the lock waits.
kept_out :
    {A : Type 0} (u t : ℕ) (p : Peer) (f : Peer → Outcome A)
    → Held t p
    → u ≢ t
    → elim (lock u p) as (λ o. Outcome A) [ none ↦ waits | some q ↦ f q ] ≡ waits
kept_out u t p f (n, e) other =
    let no_match : (t == u) ≡ false = ground arith in rw e (rw no_match refl)

blocked :
    (t u : ℕ) (v : Written) (more : ℕ) (retry : Bool) (p : Peer)
    → u ≢ t
    → Held t p
    → (send u v more p ≡ waits) × (raw_close u p ≡ waits) × (close u v more retry p ≡ waits)
unfolding send raw_close close close_locked
blocked t u v more retry p other h =
    let no_send = kept_out u t p _ h other in
    (
      no_send,
      kept_out u t (record p { status = disconnected }) _ h other,
      elim (Bool-cases (is_connected p)) [
        | inl c ↦ rw c (ap (λ (o : Outcome ℤ). o >>= λ q code. close_locked u retry q) no_send)
        | inr c ↦ rw c (kept_out u t p _ h other)
      ],
    )

-- A send on a socket that is no longer valid never gives the lock back: whatever calls of any threads come
-- after it and return, every send, close and rawClose of another thread then waits for ever. It
-- answers -1.
pub send_blocks :
    (t u : ℕ) (w v : Written) (size more : ℕ) (retry : Bool) (ops : List Op) (p : Peer)
    → p.valid ≡ false
    → p.owner ≡ none
    → u ≢ t
    → (q : Peer) × (send t w size p ≡ returns q (negsuc 0) [])
      × After
          (λ r.
            (send u v more r ≡ waits) × (raw_close u r ≡ waits) × (close u v more retry r ≡ waits))
          (run ops q)
unfolding send send_buffer
send_blocks t u w v size more retry ops p invalid_ free other = (
  record p { owner = some (t, 1) },
  ground arith,
  After-map _ _ (run ops (record p { owner = some (t, 1) })) (λ r. blocked t u v more retry r other)
      (After-run (Held t) (call-Held t) ops (record p { owner = some (t, 1) }) (0, refl)),
)
