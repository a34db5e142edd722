-- ===== src/PeerTcp/Told.antt =====
-- src/peer_tcp.cpp: what sending and closing tell the universe.
use beyond_protocol.Prelude.{
  ℕ, suc, ◌+◌, ◌≡◌, ◌≤◌, ◌⊎◌, Option-cases, refl, arith, Bool, true, false, ◌==◌, if◌then◌else◌,
  List, [], ◌∷◌, ◌++◌, Option, none, some, inl, inr, Bool-cases,
}
use beyond_protocol.Prelude.Int.{pos, negsuc}
use beyond_protocol.Rpc.Handshake.{disconnected}
use beyond_protocol.PeerTcp.{
  notify_disconnect, error, hands_over, Peer, Event, Outcome, returns, waits, aborts, and_after,
  ◌>>=◌, lock, unlock, is_connected, close_now, Written, wrote, throws, send_buffer, send,
  close_locked, close, raw_close,
}
use beyond_protocol.PeerTcp.Runs.{forget}

-- The disconnections among the events.
abbrev pub count : List Event → ℕ
count [] = 0
count (notify_disconnect ∷ events) = suc (count events)
count (error e ∷ events) = count events
count (hands_over n ∷ events) = count events

abbrev pub open_sockets : Peer → ℕ
open_sockets p = if p.valid then 1 else 0

count-append : (xs ys : List Event) → count (xs ++ ys) ≡ count xs + count ys
count-append [] ys = omega arith
count-append (notify_disconnect ∷ xs) ys = omega (arith, count-append xs ys)
count-append (error e ∷ xs) ys = count-append xs ys
count-append (hands_over n ∷ xs) ys = count-append xs ys

-- The disconnections of a call, with the one that may still come.
abbrev pub told : {A : Type 0} → Outcome A → ℕ
told (returns p a events) = count events + open_sockets p
told waits = 0
told aborts = 0

pub told-and_after :
    {A : Type 0} (events : List Event) (o : Outcome A)
    → told (and_after events o) ≤ count events + told o
told-and_after events (returns p a more) = omega (arith, count-append events more)
told-and_after events waits = omega arith
told-and_after events aborts = omega arith

pub told-and_then :
    {A B : Type 0} (m n : ℕ) (o : Outcome A) (f : Peer → A → Outcome B)
    → told o ≤ n
    → ((p : Peer) (a : A) → told (f p a) ≤ open_sockets p + m)
    → told (o >>= f) ≤ n + m
told-and_then m n (returns p a events) f h k = omega (arith, told-and_after events (f p a), k p a)
told-and_then m n waits f h k = omega arith
told-and_then m n aborts f h k = omega arith

pub told->>= :
    {A B : Type 0} (n : ℕ) (o : Outcome A) (f : Peer → A → Outcome B)
    → told o ≤ n
    → ((p : Peer) (a : A) → told (f p a) ≤ open_sockets p)
    → told (o >>= f) ≤ n
told->>= n o f h k = omega (arith, told-and_then 0 n o f h (λ p a. omega (arith, k p a)))

pub told-forget : {A : Type 0} (o : Outcome A) → told (forget o) ≡ told o
told-forget (returns p a events) = refl
told-forget waits = refl
told-forget aborts = refl

pub told_close_now :
    (retry : Bool) (p : Peer)
    → count (close_now retry p).1 + open_sockets (close_now retry p).0 ≤ open_sockets p
unfolding close_now
told_close_now retry p = ground arith

lock_cases :
    (t : ℕ) (p : Peer)
    → (lock t p ≡ none) ⊎ ((o : Option (ℕ × ℕ)) × (lock t p ≡ some (record p { owner = o })))
lock_cases t p = elim (Option-cases p.owner) [
  | inl e ↦ inr (some (t, 1), rw e refl)
  | inr ((u, n), e) ↦ elim (Bool-cases (u == t)) [
    | inl same ↦ inr (some (u, n + 1), ground arith)
    | inr other ↦ inl (rw e (rw other refl))
  ]
]

-- A call that takes the lock tells what it would tell without one.
told-lock :
    {A : Type 0} (n t : ℕ) (p : Peer) (f : Peer → Outcome A)
    → ((o : Option (ℕ × ℕ)) → told (f (record p { owner = o })) ≤ n)
    → told (elim (lock t p) as (λ o. Outcome A) [ none ↦ waits | some q ↦ f q ]) ≤ n
told-lock n t p f k = elim (lock_cases t p) [ inl e ↦ rw e (omega arith) | inr (o, e) ↦ rw e (k o) ]

unlock-valid : (p : Peer) → (unlock p).valid ≡ p.valid
unlock-valid p = ground arith

told_send_buffer :
    (w : Written) (size : ℕ) (p : Peer)
    → count (send_buffer w size p).1.1 + open_sockets (send_buffer w size p).0 ≤ open_sockets p
unfolding send_buffer
told_send_buffer (wrote (negsuc k)) size p = ground (arith, unlock-valid p)
told_send_buffer (wrote (pos c)) size p =
    ground (arith, unlock-valid p, unlock-valid (close_now true p).0, told_close_now true p)
told_send_buffer throws size p =
    ground (arith, unlock-valid (close_now true p).0, told_close_now true p)

pub told-send :
    (t : ℕ) (w : Written) (size : ℕ) (p : Peer) → told (send t w size p) ≤ open_sockets p
unfolding send
told-send t w size p =
    told-lock (open_sockets p) t p _ (λ o. told_send_buffer w size (record p { owner = o }))

told-close_locked :
    (t : ℕ) (retry : Bool) (p : Peer) → told (close_locked t retry p) ≤ open_sockets p
unfolding close_locked
told-close_locked t retry p = told-lock (open_sockets p) t p _ (λ o.
    let q = record p { owner = o } in
    ground (arith, unlock-valid (close_now retry q).0, told_close_now retry q))

pub told-close :
    (t : ℕ) (w : Written) (size : ℕ) (retry : Bool) (p : Peer)
    → told (close t w size retry p) ≤ open_sockets p
unfolding close
told-close t w size retry p = elim (Bool-cases (is_connected p)) [
  | inl c ↦ rw c (
      told->>= (open_sockets p) (send t w size p) _ (told-send t w size p)
        (λ q code. told-close_locked t retry q))
  | inr c ↦ rw c (told-close_locked t retry p)
]

pub told-raw_close : (t : ℕ) (p : Peer) → told (raw_close t p) ≤ open_sockets p
unfolding raw_close
told-raw_close t p =
    told-lock (open_sockets p) t (record p { status = disconnected }) _
      (λ o.
        ground (arith, unlock-valid (record p { status = disconnected; owner = o; valid = false })))
