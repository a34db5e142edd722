-- ===== src/QuicPeer.antt =====
-- The send queue of a QUIC peer: src/quic/src/quic_peer.cpp. The library's Write is a parameter: whether it takes
-- an event. The contents of buffers and the masking are left to Websocket; a buffer is its size here.
pub mod Measures
pub mod Accounts
pub mod Reached
pub mod Receive
use beyond_protocol.Prelude.{
  ℕ, zero, suc, ◌+◌, ◌-◌, ◌*◌, Bool, true, false, not, ◌&&◌, ◌||◌, ◌==◌, ltb, leb, if◌then◌else◌,
  List, [], ◌∷◌, ◌++◌, Option, none, some, ◌>>=◌, length,
}
use beyond_protocol.Prelude.Int.{ℤ, pos, negsuc, ◌+ℤ◌, ◌-ℤ◌, ltb_ℤ}

-- QuicPeerStream::max_send_buffers_
abbrev pub max_send_buffers : ℕ
max_send_buffers = 512

-- QuicPeerStream::max_pending_bytes_
abbrev pub max_pending_bytes : ℕ
max_pending_bytes = 1024 * 1024 * 24

-- SendEvent, with a number for its address. Its size is that of its buffer, 0 once that is moved away.
pub record SendEvent : Type 0 where
  pub id : ℕ
  pub size : ℕ
  pub pending : Bool
  pub complete : Bool

-- The sending half of QuicPeerStream. `headers` has the events that the headers are for, `free` the number
-- of buffers in send_buffers_free_, `next_id` a number that no event has had.
pub record Sender : Type 0 where
  pub queue : List SendEvent
  pub headers : List ℕ
  pub free : ℕ
  pub buffer_count : ℕ
  pub pending_sends : ℤ
  pub pending_bytes : ℤ
  pub has_stream : Bool
  pub is_open : Bool
  pub next_id : ℕ

-- get_buffer_; none while it waits for a buffer.
unfoldable pub get_buffer : Sender → Option Sender
get_buffer s =
    if ltb 0 s.free
    then some (record s { free = s.free - 1 })
    else (if leb max_send_buffers s.buffer_count
        then none
        else some (record s { buffer_count = s.buffer_count + 1 }))

-- release_buffer_
abbrev pub release_buffer : Sender → Sender
release_buffer s = record s { free = s.free + 1 }

-- queue_send_
unfoldable pub queue_send : ℕ → Sender → Sender
queue_send size s = record s {
  queue = s.queue ++ record { id = s.next_id; size = size; pending = true; complete = false } ∷ [];
  headers = s.headers ++ s.next_id ∷ [];
  next_id = s.next_id + 1;
}

-- send_
abbrev pub send_event : (ℕ → Bool) → SendEvent → SendEvent
send_event takes e = record e { pending = not (takes e.id) }

-- The loop of flush_send_queue_, over the queue from its end.
unfoldable pub flush_from : (ℕ → Bool) → List SendEvent → List SendEvent
flush_from takes [] = []
flush_from takes (e ∷ es) =
    let rest = flush_from takes es in
    if e.pending
    then (if not (send_event takes e).pending
        then send_event takes e ∷ es
        else record e { pending = false } ∷ rest)
    else e ∷ es

abbrev pub reverse_onto : List SendEvent → List SendEvent → List SendEvent
reverse_onto [] acc = acc
reverse_onto (e ∷ es) acc = reverse_onto es (e ∷ acc)

-- flush_send_queue_
unfoldable pub flush_send_queue : (ℕ → Bool) → Sender → Sender
flush_send_queue takes s = record s {
  queue = reverse_onto (flush_from takes (reverse_onto s.queue [])) [];
}

-- Sends the event at the end of the queue.
unfoldable pub send_last : (ℕ → Bool) → List SendEvent → List SendEvent
send_last takes [] = []
send_last takes (e ∷ []) = send_event takes e ∷ []
send_last takes (e ∷ f ∷ es) = e ∷ send_last takes (f ∷ es)

-- send_buffer_ from where the queue is short enough.
unfoldable pub send_now : (ℕ → Bool) → ℕ → Sender → Sender × ℤ
send_now takes size s =
    let counted = record s {
      pending_sends = s.pending_sends +ℤ pos 1;
      pending_bytes = s.pending_bytes +ℤ pos size;
    } in
    if not s.has_stream
    then (queue_send size counted, negsuc 0)
    else (let queued = queue_send size (flush_send_queue takes counted) in
        (record queued { queue = send_last takes queued.queue }, pos 1))

-- send_buffer_; none while it waits for the queue to get shorter, after which it goes on with send_now.
unfoldable pub send_buffer : (ℕ → Bool) → ℕ → Sender → Option (Sender × ℤ)
send_buffer takes size s =
    if not s.has_stream || not s.is_open
    then some (release_buffer s, negsuc 0)
    else (if ltb_ℤ (pos max_pending_bytes) s.pending_bytes
        then none
        else some (send_now takes size s))

-- clear_completed_, over the queue and the headers; none where the CHECK on the header fails.
unfoldable pub clear_completed : List SendEvent → List ℕ → Option (List SendEvent × List ℕ)
clear_completed [] hs = some ([], hs)
clear_completed (e ∷ es) [] = if e.complete then none else some (e ∷ es, [])
clear_completed (e ∷ es) (h ∷ hs) =
    let rest = clear_completed es hs in
    if e.complete then (if h == e.id then rest else none) else some (e ∷ es, h ∷ hs)

-- The event with a number is complete, and its buffer is moved away; with the size it had.
unfoldable pub complete_event : ℕ → List SendEvent → Option (List SendEvent × ℕ)
complete_event id [] = none
complete_event id (e ∷ es) =
    let rest = complete_event id es in
    if e.id == id
    then some (record e { complete = true; size = 0 } ∷ es, e.size)
    else (do (es', size) ← rest; some (e ∷ es', size))

abbrev pub is_front : ℕ → List SendEvent → Bool
is_front id [] = false
is_front id (e ∷ es) = e.id == id

-- OnWriteComplete of the event with a number; none where there is none, or a CHECK fails.
unfoldable pub on_write_complete : ℕ → Sender → Option Sender
on_write_complete id s = do
  (queue, size) ← complete_event id s.queue
  (left, headers) ←
      (if is_front id queue then clear_completed queue s.headers else some (queue, s.headers))
  some (record s {
    queue = left;
    headers = headers;
    free = s.free + 1;
    pending_sends = s.pending_sends -ℤ pos 1;
    pending_bytes = s.pending_bytes -ℤ pos size;
  })

-- discard_queued_sends_, which reset() calls.
unfoldable pub discard_each : List SendEvent → Sender → Sender
discard_each [] s = record s { queue = [] }
discard_each (e ∷ es) s =
    let r = discard_each es (
      if e.pending
      then record s {
        free = s.free + 1;
        pending_sends = s.pending_sends -ℤ pos 1;
        pending_bytes = s.pending_bytes -ℤ pos e.size;
      }
      else s) in
    record r { queue = (if e.pending then record e { size = 0 } else e) ∷ r.queue }

unfoldable pub discard_queued_sends : Sender → Sender
discard_queued_sends s = discard_each s.queue s
