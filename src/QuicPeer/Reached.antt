-- ===== src/QuicPeer/Reached.antt =====
-- The send queue of a QUIC peer after any calls, src/quic/src/quic_peer.cpp.
use mathlib.Core.Option.{some-injective}
use beyond_protocol.Prelude.{
  ℕ, suc, ◌+◌, ◌≤◌, ◌≡◌, refl, sym, ap, ◌∙◌, subst, arith, Bool, true, List, [], ◌∷◌, some,
}
use beyond_protocol.Prelude.Int.{ℤ, pos}
use beyond_protocol.QuicPeer.{
  SendEvent, Sender, get_buffer, send_now, send_buffer, on_write_complete, max_send_buffers,
}
use beyond_protocol.QuicPeer.Measures.{left, bytes, ids, front_open, on_the_way}
use beyond_protocol.QuicPeer.Accounts.{
  Accounts, get_buffer-Accounts, send_buffer-Accounts, send_now-Accounts,
  on_write_complete-Accounts,
}

-- A peer of which nothing was sent.
abbrev pub new_sender : Sender
new_sender = record {
  queue = [];
  headers = [];
  free = 0;
  buffer_count = 0;
  pending_sends = pos 0;
  pending_bytes = pos 0;
  has_stream = true;
  is_open = true;
  next_id = 0;
}

-- What calls lead to, with the number of buffers that were taken and are not sent yet. A send that
-- waited goes on in any state. The library completes a write that is on the way. The stream may shut
-- at any time.
pub data Reach : ℕ → Sender → Type 0 where
  begin : Reach 0 new_sender
  take : {held : ℕ} {s t : Sender} → Reach held s → get_buffer s ≡ some t → Reach (suc held) t
  send :
      {held : ℕ} {s : Sender} (takes : ℕ → Bool) (size : ℕ) (r : Sender × ℤ)
      → Reach (suc held) s
      → send_buffer takes size s ≡ some r
      → Reach held r.0
  go_on :
      {held : ℕ} {s : Sender} (takes : ℕ → Bool) (size : ℕ)
      → Reach (suc held) s
      → Reach held (send_now takes size s).0
  complete :
      {held : ℕ} {s t : Sender} (id : ℕ)
      → Reach held s
      → on_the_way id s.queue ≡ true
      → on_write_complete id s ≡ some t
      → Reach held t
  shut :
      {held : ℕ} {s : Sender} (has_stream is_open : Bool)
      → Reach held s
      → Reach held (record s { has_stream = has_stream; is_open = is_open })

Reach-Accounts : {held : ℕ} {s : Sender} → Reach held s → Accounts held s
Reach-Accounts begin = record {
  sends = refl;
  sizes = refl;
  heads = refl;
  front = refl;
  given_back = refl;
  buffers = refl;
  few = omega arith;
}
Reach-Accounts (take r e) = get_buffer-Accounts _ _ _ e (Reach-Accounts r)
Reach-Accounts (send takes size r p e) = send_buffer-Accounts _ takes size _ r e (Reach-Accounts p)
Reach-Accounts (go_on takes size p) = send_now-Accounts _ takes size _ (Reach-Accounts p)
Reach-Accounts (complete id p way e) =
    let (t, done, a) = on_write_complete-Accounts _ id _ way (Reach-Accounts p) in
    subst (Accounts _) (some-injective t _ (sym done ∙ e)) a
Reach-Accounts (shut has_stream is_open p) =
    let a = Reach-Accounts p in
    record {
      sends = a.sends;
      sizes = a.sizes;
      heads = a.heads;
      front = a.front;
      given_back = a.given_back;
      buffers = a.buffers;
      few = a.few;
    }

-- After any calls, pending_sends_ is the number of the events that are not complete, pending_bytes_ the
-- bytes of the events in the queue, and the free buffers, those in the queue and those that are held
-- are at most 512 together.
pub Reach-counted :
    (held : ℕ) (s : Sender)
    → Reach held s
    → (s.pending_sends ≡ pos (left s.queue))
      × (s.pending_bytes ≡ pos (bytes s.queue))
      × (s.free + left s.queue + held ≤ max_send_buffers)
Reach-counted held s r =
    let a = Reach-Accounts r in (a.sends, a.sizes, omega (arith, a.buffers, a.few))

nothing_left : (q : List SendEvent) → front_open q ≡ true → left q ≡ 0 → q ≡ []
nothing_left [] front none_left = refl
nothing_left (e ∷ es) front none_left = absurd (ground arith)

pos_inj : (n : ℕ) → pos n ≡ pos 0 → n ≡ 0
pos_inj n h = cc

-- Once no sends are pending after any calls, in whatever order the writes were completed, the queue and the
-- headers are empty, no bytes are pending, and every buffer is free or held.
pub Reach-drained :
    (held : ℕ) (s : Sender)
    → Reach held s
    → s.pending_sends ≡ pos 0
    → (s.queue ≡ [])
      × (s.headers ≡ [])
      × (s.pending_bytes ≡ pos 0)
      × (s.free + held ≡ s.buffer_count)
Reach-drained held s r none_pending =
    let a = Reach-Accounts r in
    let none_left = pos_inj (left s.queue) (sym a.sends ∙ none_pending) in
    let gone = nothing_left s.queue a.front none_left in
    (
      gone,
      a.heads ∙ ap ids gone,
      a.sizes ∙ ap (λ q. pos (bytes q)) gone,
      omega (arith, a.buffers, none_left),
    )

-- The completion of a write that is on the way always returns: no CHECK on the headers fails.
pub Reach-completes :
    (held id : ℕ) (s : Sender)
    → Reach held s
    → on_the_way id s.queue ≡ true
    → (t : Sender) × (on_write_complete id s ≡ some t) × Reach held t
Reach-completes held id s r way =
    let (t, done, a) = on_write_complete-Accounts held id s way (Reach-Accounts r) in
    (t, done, complete id r way done)
