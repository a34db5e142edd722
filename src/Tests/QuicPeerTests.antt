-- ===== src/Tests/QuicPeerTests.antt =====
-- src/quic/src/quic_peer.cpp, the send queue, at concrete inputs.
use beyond_protocol.Prelude.{ℕ, max, List, arith, ◌+◌, ◌≤◌, ◌≡◌, refl, true, false, [], ◌∷◌, some}
use beyond_protocol.Prelude.Int.{pos, ◌+ℤ◌, ◌-ℤ◌}
use beyond_protocol.QuicPeer.{
  SendEvent, Sender, get_buffer, queue_send, flush_from, flush_send_queue, send_last, send_now,
  send_buffer, clear_completed, complete_event, on_write_complete, max_send_buffers, discard_each,
  discard_queued_sends,
}
use beyond_protocol.QuicPeer.Measures.{left, bytes}
use beyond_protocol.QuicPeer.Reached.{
  Reach, new_sender, begin, take, send, complete, Reach-counted, Reach-drained, Reach-completes,
}
use beyond_protocol.Websocket.Read.{
  fresh, receive_all, receive, next, drain, read_buffer, copy_partial_header, start_payload,
  next_buffer, keep_partial,
}
use beyond_protocol.Websocket.Header.{parse_header, parsed_size, bad_op, read_length, key_at}
use beyond_protocol.Websocket.Masking.{mask, key_byte}
use beyond_protocol.QuicPeer.Receive.{
  Receiver, Receipt, received, on_data, receive_each, receive_one, make_room, unframe, copy_in,
  finish, buffer_consumed,
}
use beyond_protocol.QuicPeer.Receive.Whole.{Answers, on_data-receive_all}

abbrev event : ℕ → ℕ → SendEvent
event id size = record { id = id; size = size; pending = false; complete = false }

-- Two buffers are taken and sent, of 30 and of 50 bytes.
abbrev two_sent : Sender
two_sent = record new_sender {
  queue = event 0 30 ∷ event 1 50 ∷ [];
  headers = 0 ∷ 1 ∷ [];
  buffer_count = 2;
  pending_sends = pos 2;
  pending_bytes = pos 80;
  next_id = 2;
}

two_sent_reached : Reach 0 two_sent
unfolding get_buffer send_buffer send_now flush_send_queue flush_from send_last queue_send ◌+ℤ◌
two_sent_reached =
    send (λ id. true) 50 (two_sent, pos 1)
      (send (λ id. true) 30 (_, pos 1) (take (take begin refl) refl) refl) refl

-- The second write is completed first.
abbrev all_done : Sender
all_done = record new_sender { free = 2; buffer_count = 2; next_id = 2 }

all_done_reached : Reach 0 all_done
unfolding on_write_complete complete_event clear_completed ◌-ℤ◌
all_done_reached = complete 0 (complete 1 two_sent_reached refl refl) refl refl

Reach-counted_example :
    (two_sent.pending_sends ≡ pos (left two_sent.queue))
    × (two_sent.pending_bytes ≡ pos (bytes two_sent.queue))
    × (two_sent.free + left two_sent.queue + 0 ≤ max_send_buffers)
Reach-counted_example = Reach-counted 0 two_sent two_sent_reached

Reach-drained_example :
    (all_done.queue ≡ [])
    × (all_done.headers ≡ [])
    × (all_done.pending_bytes ≡ pos 0)
    × (all_done.free + 0 ≡ all_done.buffer_count)
Reach-drained_example = Reach-drained 0 all_done all_done_reached refl

Reach-completes_example : (t : Sender) × (on_write_complete 1 two_sent ≡ some t) × Reach 0 t
Reach-completes_example = Reach-completes 0 1 two_sent two_sent_reached refl

-- One event was refused when it was sent.
abbrev one_refused : Sender
one_refused = record two_sent { queue = event 0 30 ∷ record (event 1 50) { pending = true } ∷ [] }

-- An event that is discarded stays in the queue, and is discarded again.
discarded-twice : (discard_queued_sends (discard_queued_sends one_refused)).pending_sends ≡ pos 0
unfolding discard_queued_sends discard_each ◌-ℤ◌
discarded-twice = refl

-- There is room for 10 bytes.
abbrev new_receiver : Receiver
new_receiver = record {
  reader = fresh;
  ws_frame = true;
  has_stream = true;
  capacity = 10;
  parsed = 1 ∷ [];
  copied = [];
  size_total = 0;
  consumed = 0;
}

-- Two masked frames of five bytes, in three buffers.
abbrev two_frames : List (List ℕ)
two_frames =
    (130 ∷ 133 ∷ 55 ∷ [])
    ∷ (250 ∷ 33 ∷ 61 ∷ 127 ∷ 159 ∷ [])
    ∷ (77 ∷ 81 ∷ 88 ∷ 130 ∷ 133 ∷ 55 ∷ 250 ∷ 33 ∷ 61 ∷ 127 ∷ 159 ∷ 77 ∷ 81 ∷ 88 ∷ [])
    ∷ []

on_data-receive_all_example :
    Answers new_receiver 22 (receive_all fresh two_frames []) (on_data max two_frames new_receiver)
on_data-receive_all_example =
    on_data-receive_all max two_frames new_receiver (λ room size. omega arith) refl

abbrev parsed_of : Receipt → List ℕ
parsed_of (received s) = s.parsed
parsed_of _ = []

hello_twice :
    parsed_of (on_data max two_frames new_receiver)
    ≡ 1 ∷ 72 ∷ 101 ∷ 108 ∷ 108 ∷ 111 ∷ 72 ∷ 101 ∷ 108 ∷ 108 ∷ 111 ∷ []
unfolding on_data receive_each receive_one make_room unframe copy_in finish buffer_consumed receive
    next drain read_buffer copy_partial_header start_payload next_buffer parse_header mask
    parsed_size keep_partial bad_op read_length key_byte key_at
hello_twice = refl
