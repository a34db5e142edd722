-- ===== src/PeerTcp/Jobs.antt =====
-- The hand-over of received messages to jobs, of src/peer_tcp.cpp: recv, _createJob and _data, one
-- access to a shared variable at a time, in any order. One thread calls recv, as the code assumes.
-- Jobs differ only in where they stand, so that the state counts them. They run in the pool of src/protocol.cpp, which has
-- four threads; what else runs there is left out. It is for one connection: a socket
-- that is closed does not come back.
pub mod Alone
pub mod Pile
use beyond_protocol.Prelude.{ℕ, ◌+◌, ◌-◌, ◌<◌, ◌≡◌, ◌⊎◌, Bool, true, false}

-- The threads of ftl::pool.
abbrev pub pool_size : ℕ
pool_size = 4

-- Where recv stands.
pub data Receiver : Type 0 where
  idle : Receiver
  consumed : Receiver  -- after buffer_consumed
  cleared : Receiver  -- after recv_checked_.clear()
  starting : Receiver  -- before _createJob

-- `waiting` are the whole messages in recv_buf_, `handled` those that process_message_ has returned
-- from; `checked` is recv_checked_, `processing` is already_processing_. The numbers of jobs come last.
pub record State : Type 0 where
  pub valid : Bool
  pub waiting : ℕ
  pub handled : ℕ
  pub checked : Bool
  pub processing : Bool
  pub receiver : Receiver
  pub queued : ℕ  -- pushed to the pool, and not begun
  pub top : ℕ  -- start of _data
  pub marked : ℕ  -- before the buffer is looked at
  pub handling : ℕ  -- in process_message_
  pub empty : ℕ  -- nothing was found
  pub released : ℕ  -- after already_processing_.clear() in _data
  pub retry : ℕ  -- before already_processing_.test_and_set()
  pub leaving : ℕ  -- _data has returned false

-- A peer before anything is received.
abbrev pub fresh : State
fresh = record {
  valid = true;
  waiting = 0;
  handled = 0;
  checked = false;
  processing = false;
  receiver = idle;
  queued = 0;
  top = 0;
  marked = 0;
  handling = 0;
  empty = 0;
  released = 0;
  retry = 0;
  leaving = 0;
}

-- The jobs that have a thread.
abbrev pub running : State → ℕ
running s = s.top + s.marked + s.handling + s.empty + s.released + s.retry + s.leaving

abbrev pub jobs : State → ℕ
jobs s = s.queued + s.top + s.marked + s.handling + s.empty + s.released + s.retry + s.leaving

-- One step, with the number of messages whose last byte it receives.
pub data Step (s : State) : ℕ → State → Type 0 where
  receive :
      (n : ℕ)
      → s.valid ≡ true
      → s.receiver ≡ idle
      → Step s n (record s { waiting = s.waiting + n; receiver = consumed })
  clear : s.receiver ≡ consumed → Step s 0 (record s { checked = false; receiver = cleared })
  win :
      s.receiver ≡ cleared
      → s.processing ≡ false
      → Step s 0 (record s { processing = true; receiver = starting })
  lose : s.receiver ≡ cleared → s.processing ≡ true → Step s 0 (record s { receiver = idle })
  start : s.receiver ≡ starting → Step s 0 (record s { receiver = idle; queued = s.queued + 1 })
  take_thread :
      0 < s.queued
      → running s < pool_size
      → Step s 0 (record s { queued = s.queued - 1; top = s.top + 1 })
  mark : 0 < s.top → Step s 0 (record s { checked = true; top = s.top - 1; marked = s.marked + 1 })
  find :
      0 < s.marked
      → s.valid ≡ true
      → 0 < s.waiting
      → Step s 0
          (record s { waiting = s.waiting - 1; marked = s.marked - 1; handling = s.handling + 1 })
  miss :
      0 < s.marked
      → (s.valid ≡ false) ⊎ (s.waiting ≡ 0)
      → Step s 0 (record s { marked = s.marked - 1; empty = s.empty + 1 })
  fail :  -- an exception while the buffer is read: _close
      0 < s.marked
      → Step s 0 (record s { valid = false; marked = s.marked - 1; leaving = s.leaving + 1 })
  handle :
      0 < s.handling
      → Step s 0 (record s { handled = s.handled + 1; handling = s.handling - 1; top = s.top + 1 })
  release :
      0 < s.empty
      → Step s 0 (record s { processing = false; empty = s.empty - 1; released = s.released + 1 })
  recheck :
      0 < s.released
      → s.checked ≡ false
      → Step s 0 (record s { checked = true; released = s.released - 1; retry = s.retry + 1 })
  give_up :
      0 < s.released
      → s.checked ≡ true
      → Step s 0 (record s { released = s.released - 1; leaving = s.leaving + 1 })
  resume :
      0 < s.retry
      → s.processing ≡ false
      → Step s 0 (record s { processing = true; retry = s.retry - 1; top = s.top + 1 })
  yield :
      0 < s.retry
      → s.processing ≡ true
      → Step s 0 (record s { retry = s.retry - 1; leaving = s.leaving + 1 })
  leave : 0 < s.leaving → Step s 0 (record s { processing = false; leaving = s.leaving - 1 })
  close : Step s 0 (record s { valid = false })

-- What is reached from a fresh peer, and the number of messages received until then.
pub data Reach : ℕ → State → Type 0 where
  begin : Reach 0 fresh
  next : {n k m : ℕ} {s t : State} → Reach n s → Step s k t → n + k ≡ m → Reach m t

-- Nothing is going on.
abbrev pub Quiet : State → Type 0
Quiet s = (s.receiver ≡ idle) × (jobs s ≡ 0)
