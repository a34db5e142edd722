-- ===== src/QuicPeer/Accounts.antt =====
-- What the numbers of a QUIC peer's send queue count, src/quic/src/quic_peer.cpp.
use mathlib.Core.Option.{some-injective}
use beyond_protocol.Prelude.{
  ℕ, suc, ◌+◌, ◌-◌, ◌≤◌, ◌≡◌, refl, sym, ap, ◌∙◌, subst, inl, inr, arith, Bool, true, false, not,
  ◌||◌, ltb, if◌then◌else◌, List, [], ◌∷◌, ◌++◌, some, if-eq-some, Bool-cases,
}
use beyond_protocol.Prelude.Int.{pos_add, pos_sub, ℤ, pos, negsuc, ◌+ℤ◌, ◌-ℤ◌, ltb_ℤ}
use beyond_protocol.QuicPeer.{
  SendEvent, Sender, get_buffer, queue_send, flush_send_queue, send_last, send_now, send_buffer,
  clear_completed, is_front, on_write_complete, max_pending_bytes, max_send_buffers,
}
use beyond_protocol.QuicPeer.Measures.{
  left, bytes, ids, front_open, emptied, on_the_way, cores, left-cores, bytes-cores, ids-cores,
  front_open-cores, emptied-cores, cores-flush_send_queue, cores-send_last, unseen, left-queued,
  bytes-queued, ids-queued, front_open-queued, emptied-queued, complete_event_lem,
  clear_completed_lem,
}

-- The numbers and the front of the queue are right, where `held` buffers have been taken and not sent yet.
pub record Accounts (held : ℕ) (s : Sender) : Type 0 where
  pub sends : s.pending_sends ≡ pos (left s.queue)
  pub sizes : s.pending_bytes ≡ pos (bytes s.queue)
  pub heads : s.headers ≡ ids s.queue
  pub front : front_open s.queue ≡ true
  pub given_back : emptied s.queue ≡ true
  pub buffers : s.free + left s.queue + held ≡ s.buffer_count
  pub few : s.buffer_count ≤ max_send_buffers

-- Which events are pending is not counted.
repending :
    (held : ℕ) (s : Sender) (q : List SendEvent)
    → cores q ≡ cores s.queue
    → Accounts held s
    → Accounts held (record s { queue = q })
repending held s q same a = record {
  sends = a.sends ∙ ap pos (unseen left q s.queue left-cores same);
  sizes = a.sizes ∙ ap pos (unseen bytes q s.queue bytes-cores same);
  heads = a.heads ∙ unseen ids q s.queue ids-cores same;
  front = sym (unseen front_open q s.queue front_open-cores same) ∙ a.front;
  given_back = sym (unseen emptied q s.queue emptied-cores same) ∙ a.given_back;
  buffers = omega (arith, a.buffers, unseen left q s.queue left-cores same);
  few = a.few;
}

-- A buffer that is held goes into the queue, and is counted.
queue_send-Accounts :
    (held size : ℕ) (s : Sender)
    → Accounts (suc held) s
    → Accounts held (
        queue_send size (record s {
          pending_sends = s.pending_sends +ℤ pos 1;
          pending_bytes = s.pending_bytes +ℤ pos size;
        }))
unfolding queue_send
queue_send-Accounts held size s a = record {
  sends =
      ap (λ n. n +ℤ pos 1) a.sends
      ∙ pos_add (left s.queue) 1
      ∙ ap pos (sym (left-queued s.next_id size s.queue));
  sizes =
      ap (λ n. n +ℤ pos size) a.sizes
      ∙ pos_add (bytes s.queue) size
      ∙ ap pos (sym (bytes-queued s.next_id size s.queue));
  heads = ap (λ is. is ++ s.next_id ∷ []) a.heads ∙ sym (ids-queued s.next_id size s.queue);
  front = front_open-queued s.next_id size s.queue a.front;
  given_back = emptied-queued s.next_id size s.queue a.given_back;
  buffers = omega (arith, a.buffers, left-queued s.next_id size s.queue);
  few = a.few;
}

pub send_now-Accounts :
    (held : ℕ) (takes : ℕ → Bool) (size : ℕ) (s : Sender)
    → Accounts (suc held) s
    → Accounts held (send_now takes size s).0
unfolding send_now flush_send_queue
send_now-Accounts held takes size s a = go s.has_stream
  where
    counted : Sender
    counted = record s {
      pending_sends = s.pending_sends +ℤ pos 1;
      pending_bytes = s.pending_bytes +ℤ pos size;
    }

    after : Sender
    after = queue_send size (flush_send_queue takes counted)

    answer : Bool → Sender × ℤ
    answer b =
        if not b
        then (queue_send size counted, negsuc 0)
        else (record after { queue = send_last takes after.queue }, pos 1)

    go : (b : Bool) → Accounts held (answer b).0
    go false = queue_send-Accounts held size s a
    go true =
        repending held after (send_last takes after.queue) (cores-send_last takes after.queue) (
          queue_send-Accounts held size (flush_send_queue takes s) (
            repending (suc held) s (flush_send_queue takes s).queue (cores-flush_send_queue takes s)
              a))

recounted :
    {before : ℕ} (held free buffer_count : ℕ) (s : Sender)
    → free + left s.queue + held ≡ buffer_count
    → buffer_count ≤ max_send_buffers
    → Accounts before s
    → Accounts held (record s { free = free; buffer_count = buffer_count })
recounted held free buffer_count s e few a = record {
  sends = a.sends;
  sizes = a.sizes;
  heads = a.heads;
  front = a.front;
  given_back = a.given_back;
  buffers = e;
  few = few;
}

pub send_buffer-Accounts :
    (held : ℕ) (takes : ℕ → Bool) (size : ℕ) (s : Sender) (r : Sender × ℤ)
    → send_buffer takes size s ≡ some r
    → Accounts (suc held) s
    → Accounts held r.0
unfolding send_buffer
send_buffer-Accounts held takes size s r e a =
    elim (if-eq-some (not s.has_stream || not s.is_open) _ _ e) [
      | inl shut ↦
          subst (λ (r : Sender × ℤ). Accounts held r.0) (some-injective _ r shut)
            (recounted held (s.free + 1) s.buffer_count s (omega (arith, a.buffers))
              (omega (arith, a.few)) a)
      | inr opened ↦ elim (if-eq-some (ltb_ℤ (pos max_pending_bytes) s.pending_bytes) _ _ opened) [
        | inl waits ↦ absurd cc
        | inr room ↦
            subst (λ (r : Sender × ℤ). Accounts held r.0) (some-injective _ r room)
              (send_now-Accounts held takes size s a)
      ]
    ]

pub get_buffer-Accounts :
    (held : ℕ) (s t : Sender) → get_buffer s ≡ some t → Accounts held s → Accounts (suc held) t
unfolding get_buffer
get_buffer-Accounts held s t e a = elim (Bool-cases (ltb 0 s.free)) [
  | inl some_free ↦
      subst (Accounts (suc held)) (some-injective (record s { free = s.free - 1 }) t (ground arith))
        (recounted (suc held) (s.free - 1) s.buffer_count s (ground (arith, a.buffers)) a.few a)
  | inr none_free ↦
      subst (Accounts (suc held))
        (some-injective (record s { buffer_count = s.buffer_count + 1 }) t (ground arith))
        (recounted (suc held) s.free (s.buffer_count + 1) s (omega (arith, a.buffers))
          (ground arith) a)
]

-- The state after the completion of an event, where the queue and the headers are known.
abbrev completed : List SendEvent → List ℕ → ℕ → Sender → Sender
completed queue headers size s = record s {
  queue = queue;
  headers = headers;
  free = s.free + 1;
  pending_sends = s.pending_sends -ℤ pos 1;
  pending_bytes = s.pending_bytes -ℤ pos size;
}

-- The completion of a write that is on the way passes its CHECK, and keeps the accounts.
pub on_write_complete-Accounts :
    (held id : ℕ) (s : Sender)
    → on_the_way id s.queue ≡ true
    → Accounts held s
    → (t : Sender) × (on_write_complete id s ≡ some t) × Accounts held t
unfolding on_write_complete
on_write_complete-Accounts held id s way a =
    let (q, size, done, fewer, less, same, empty, first) = complete_event_lem id s.queue way in
    let sends : s.pending_sends -ℤ pos 1 ≡ pos (left q) =
      ap (λ n. n -ℤ pos 1) (a.sends ∙ ap pos fewer) ∙ pos_sub (left q) 1 in
    let sizes : s.pending_bytes -ℤ pos size ≡ pos (bytes q) =
      ap (λ n. n -ℤ pos size) (a.sizes ∙ ap pos less) ∙ pos_sub (bytes q) size in
    elim (Bool-cases (is_front id q)) [
      | inl t ↦
          let (r, cleared, unclosed, sum, gone, front) =
            clear_completed_lem q (empty a.given_back) in
          let popped : clear_completed q s.headers ≡ some (r, ids r) =
            ap (clear_completed q) (a.heads ∙ sym same) ∙ cleared in
          (
            completed r (ids r) size s,
            rw done (rw t (rw popped refl)),
            record {
              sends = sends ∙ ap pos (sym unclosed);
              sizes = sizes ∙ ap pos (sym sum);
              heads = refl;
              front = front;
              given_back = gone;
              buffers = omega (arith, a.buffers, fewer, unclosed);
              few = a.few;
            },
          )
      | inr f ↦ (
        completed q s.headers size s,
        rw done (rw f refl),
        record {
          sends = sends;
          sizes = sizes;
          heads = a.heads ∙ sym same;
          front = first f a.front;
          given_back = empty a.given_back;
          buffers = omega (arith, a.buffers, fewer);
          few = a.few;
        },
      )
    ]
